-- ===== src/Assurance/Contract.antt =====
-- pkg/assurance/contract.go: the correlation context and the release evidence, with their checks.
-- A Go map of required fields is checked in the order of the source; Go leaves the order open, and
-- with it which of several missing fields the error names.
pub mod Checks
use membrane_ai.Base.{
  ℕ, Bool, true, false, ◌&&◌, ◌||◌, not, Option, none, some, List, [], ◌∷◌, ◌++◌, Str, bytes, ◌==◌,
  is_blank, all, length, ltb, leb, if◌then◌else◌,
}
use membrane_ai.Base.Int.{ℤ, pos, negsuc}
use membrane_ai.Errs.{GoError, nil, is_err, validation_err}
use membrane_ai.Assurance.Status.{
  IntegrationStatus, completed, GateDecision, pass, warn, block, validate_decision, validate_status,
  decision_string, status_string,
}
use membrane_ai.Assurance.Gate.{is_block, is_warn}

-- Nanoseconds since the zero `time.Time`.
abbrev pub Time : Type 0
Time = ℤ

-- `Time.IsZero`
abbrev pub is_zero : Time → Bool
is_zero (pos ℕ.zero) = true
is_zero (pos (ℕ.suc n)) = false
is_zero (negsuc n) = false

abbrev pub correlation_schema_version : Str
correlation_schema_version = bytes "1.0.0"

abbrev pub evidence_schema_version : Str
evidence_schema_version = bytes "1.0.0"

pub record CorrelationContext : Type 0 where
  pub schema_version : Str
  pub organization_id : Str
  pub project_id : Str
  pub code_submission_id : Str
  pub repository : Str
  pub commit_sha : Str
  pub pull_request_number : ℤ
  pub release_id : Str
  pub agent_id : Str
  pub agent_version : Str
  pub change_set_id : Str
  pub correlation_id : Str
  pub traceparent : Str
  pub tracestate : Str

-- The loop over the required fields: the name of a blank one.
unfoldable pub missing_field : List (Str × Str) → Option Str
missing_field [] = none
missing_field ((field, v) ∷ rest) = if is_blank v then some field else missing_field rest

abbrev is_hex : ℕ → Bool
is_hex c = leb b'0' c && leb c b'9' || leb b'a' c && leb c b'f' || leb b'A' c && leb c b'F'

unfoldable pub looks_like_commit_sha : Str → Bool
looks_like_commit_sha s = if ltb (length s) 7 || ltb 64 (length s) then false else all is_hex s

abbrev pub correlation_fields : CorrelationContext → List (Str × Str)
correlation_fields c =
    (bytes "membrane_organization_id", c.organization_id)
    ∷ (bytes "membrane_project_id", c.project_id)
    ∷ (bytes "membrane_code_submission_id", c.code_submission_id)
    ∷ (bytes "membrane_repository", c.repository)
    ∷ (bytes "membrane_commit_sha", c.commit_sha)
    ∷ (bytes "membrane_release_id", c.release_id)
    ∷ (bytes "membrane_agent_id", c.agent_id)
    ∷ (bytes "membrane_agent_version", c.agent_version)
    ∷ (bytes "membrane_correlation_id", c.correlation_id)
    ∷ []

abbrev op_correlation : Str
op_correlation = bytes "assurance.CorrelationContext.Validate"

-- The part of a `Validate` that follows the loop over the required fields.
abbrev pub after_fields : Str → Str → Option Str → GoError → GoError
after_fields op text (some field) rest = validation_err op (text ++ field) nil
after_fields op text none rest = rest

-- `CorrelationContext.Validate`
unfoldable pub validate_correlation : CorrelationContext → GoError
validate_correlation c =
    if not (c.schema_version == correlation_schema_version)
    then validation_err op_correlation
        (bytes "unexpected correlation schema_version: " ++ c.schema_version) nil
    else after_fields op_correlation (bytes "missing required correlation field: ")
        (missing_field (correlation_fields c))
        (if looks_like_commit_sha c.commit_sha
          then nil
          else validation_err op_correlation (bytes "membrane_commit_sha is not a hex commit SHA")
              nil)

pub record ScenarioOutcome : Type 0 where
  pub scenario : Str
  pub status : Str
  pub severity : Str
  pub evidence_urls : List (Str × Str)

pub record JudgeMetadata : Type 0 where
  pub provider : Str
  pub model : Str
  pub prompt_hash : Str
  pub calibration_status : Str

pub record ReleaseEvidence : Type 0 where
  pub schema_version : Str
  pub release_id : Str
  pub correlation_id : Str
  pub created_at : Time
  pub organization_id : Str
  pub project_id : Str
  pub repository : Str
  pub code_submission_id : Str
  pub commit_sha : Str
  pub pull_request_number : ℤ
  pub code_verdict : GateDecision
  pub ruleset_version : Str
  pub findings_summary : List (Str × ℤ)
  pub code_evidence_url : Str
  pub agent_id : Str
  pub baseline_version : Str
  pub candidate_version : Str
  pub manifest_hash : Str
  pub prompt_hash : Str
  pub agent_twin_project_id : Str
  pub evaluation_run_id : Str
  pub simulation_pair_ids : List Str
  pub scenario_selection : List Str
  pub run_seed : Str
  pub engine_version : Str
  pub evaluator_version : Str
  pub overall_status : IntegrationStatus
  pub per_scenario : List ScenarioOutcome
  pub critical_failures : List ScenarioOutcome
  pub judge : Option JudgeMetadata
  pub gate_decision : GateDecision
  pub triggered_rules : List Str
  pub snapshot_hash : Str
  pub audit_ref : Str

abbrev pub evidence_fields : ReleaseEvidence → List (Str × Str)
evidence_fields e =
    (bytes "release_id", e.release_id)
    ∷ (bytes "correlation_id", e.correlation_id)
    ∷ (bytes "membrane_organization_id", e.organization_id)
    ∷ (bytes "membrane_project_id", e.project_id)
    ∷ (bytes "membrane_repository", e.repository)
    ∷ (bytes "membrane_code_submission_id", e.code_submission_id)
    ∷ (bytes "membrane_commit_sha", e.commit_sha)
    ∷ (bytes "agent_id", e.agent_id)
    ∷ (bytes "baseline_version", e.baseline_version)
    ∷ (bytes "candidate_version", e.candidate_version)
    ∷ (bytes "agenttwin_project_id", e.agent_twin_project_id)
    ∷ (bytes "agenttwin_evaluation_run_id", e.evaluation_run_id)
    ∷ (bytes "run_seed", e.run_seed)
    ∷ (bytes "snapshot_hash", e.snapshot_hash)
    ∷ []

abbrev op_evidence : Str
op_evidence = bytes "assurance.ReleaseEvidenceV1.Validate"

abbrev is_completed : IntegrationStatus → Bool
is_completed completed = true
is_completed _ = false

abbrev is_pass : GateDecision → Bool
is_pass pass = true
is_pass _ = false

abbrev is_empty {ℓ} : {A : Type ℓ} → List A → Bool
is_empty [] = true
is_empty (x ∷ xs) = false

-- The two fail-safe invariants, at the end of `ReleaseEvidenceV1.Validate`.
unfoldable pub validate_invariants : ReleaseEvidence → GoError
validate_invariants e =
    if is_pass e.gate_decision && not (is_completed e.overall_status)
    then validation_err op_evidence
        (bytes "gate_decision PASS contradicts overall_status " ++ status_string e.overall_status)
        nil
    else if (is_block e.gate_decision || is_warn e.gate_decision) && is_empty e.triggered_rules
    then validation_err op_evidence
        (bytes "gate_decision "
          ++ decision_string e.gate_decision
          ++ bytes " must cite at least one triggered rule")
        nil
    else nil

-- The checks of the three enumerations.
unfoldable pub validate_enums : ReleaseEvidence → GoError
validate_enums e =
    if is_err (validate_status e.overall_status)
    then validate_status e.overall_status
    else if is_err (validate_decision e.gate_decision)
    then validate_decision e.gate_decision
    else if is_err (validate_decision e.code_verdict)
    then validation_err op_evidence (bytes "invalid code_verdict")
        (validate_decision e.code_verdict)
    else validate_invariants e

-- `ReleaseEvidenceV1.Validate`
unfoldable pub validate_evidence : ReleaseEvidence → GoError
validate_evidence e =
    if not (e.schema_version == evidence_schema_version)
    then validation_err op_evidence
        (bytes "unexpected evidence schema_version: " ++ e.schema_version) nil
    else after_fields op_evidence (bytes "missing required evidence field: ")
        (missing_field (evidence_fields e))
        (if is_zero e.created_at
          then validation_err op_evidence (bytes "missing required evidence field: created_at") nil
          else if not (looks_like_commit_sha e.commit_sha)
          then validation_err op_evidence (bytes "membrane_commit_sha is not a hex commit SHA") nil
          else if is_empty e.scenario_selection
          then validation_err op_evidence (bytes "scenario_selection must not be empty") nil
          else validate_enums e)
