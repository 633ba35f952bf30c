-- ===== src/Assurance/Contract/Checks.antt =====
-- What the checks of the contract accept, as properties of the records.
use membrane_ai.Base.{
  ◌≡◌, ◌≢◌, ◌↔◌, ◌⊎◌, refl, true, false, none, List, [], ◌∷◌, Str, All, is_blank, ==_iff, arith,
}
use membrane_ai.Errs.{nil}
use membrane_ai.Assurance.Status.{
  completed, GateDecision, pass, warn, block, validate_decision, validate_status,
}
use membrane_ai.Assurance.Contract.{
  CorrelationContext, missing_field, looks_like_commit_sha, correlation_fields,
  validate_correlation, correlation_schema_version, ReleaseEvidence, evidence_fields,
  validate_invariants, validate_enums, validate_evidence, evidence_schema_version, is_zero,
}

abbrev pub IsFilled : Str × Str → Type 0
IsFilled (field, v) = is_blank v ≡ false

pub missing_field-none :
    (fields : List (Str × Str)) → (missing_field fields ≡ none) ↔ All IsFilled fields
unfolding missing_field
missing_field-none [] = ((λ e. tt), (λ h. refl))
missing_field-none ((f, v) ∷ fields) = ground (arith, missing_field-none fields)

-- A correlation context of the current version, with every required field and a commit SHA.
pub record IsCorrelated (c : CorrelationContext) : Type 0 where
  pub version : c.schema_version ≡ correlation_schema_version
  pub filled : All IsFilled (correlation_fields c)
  pub sha : looks_like_commit_sha c.commit_sha ≡ true

-- `CorrelationContext.Validate` accepts exactly these.
pub validate_correlation_iff :
    (c : CorrelationContext) → (validate_correlation c ≡ nil) ↔ IsCorrelated c
unfolding validate_correlation
validate_correlation_iff c = ground (
  arith,
  missing_field-none (correlation_fields c),
  ==_iff c.schema_version correlation_schema_version,
)

abbrev pub IsKnownDecision : GateDecision → Type 0
IsKnownDecision d = validate_decision d ≡ nil

-- The two fail-safe invariants of the record.
pub record IsFailSafe (e : ReleaseEvidence) : Type 0 where
  pub pass_is_clean : e.gate_decision ≡ pass → e.overall_status ≡ completed
  pub explained : (e.gate_decision ≡ block) ⊎ (e.gate_decision ≡ warn) → e.triggered_rules ≢ []

pub record IsSound (e : ReleaseEvidence) : Type 0 where
  pub version : e.schema_version ≡ evidence_schema_version
  pub filled : All IsFilled (evidence_fields e)
  pub dated : is_zero e.created_at ≡ false
  pub sha : looks_like_commit_sha e.commit_sha ≡ true
  pub selected : e.scenario_selection ≢ []
  pub known_status : validate_status e.overall_status ≡ nil
  pub known_gate : IsKnownDecision e.gate_decision
  pub known_verdict : IsKnownDecision e.code_verdict
  pub fail_safe : IsFailSafe e

validate_invariants_iff : (e : ReleaseEvidence) → (validate_invariants e ≡ nil) ↔ IsFailSafe e
unfolding validate_invariants
validate_invariants_iff e = ground arith

validate_enums_iff :
    (e : ReleaseEvidence)
    → (validate_enums e ≡ nil) ↔ (
        (validate_status e.overall_status ≡ nil)
        × IsKnownDecision e.gate_decision
        × IsKnownDecision e.code_verdict
        × IsFailSafe e)
unfolding validate_enums
validate_enums_iff e = ground (arith, validate_invariants_iff e)

-- `ReleaseEvidenceV1.Validate` accepts exactly the records that are sound.
pub validate_evidence_iff : (e : ReleaseEvidence) → (validate_evidence e ≡ nil) ↔ IsSound e
unfolding validate_evidence
validate_evidence_iff e = ground (
  arith,
  missing_field-none (evidence_fields e),
  ==_iff e.schema_version evidence_schema_version,
  validate_enums_iff e,
)
