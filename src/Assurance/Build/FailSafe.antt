-- ===== src/Assurance/Build/FailSafe.antt =====
-- When evidence is built, and what its gate decision can be.
use membrane_ai.Base.{◌≡◌, ◌≢◌, ◌↔◌, ◌⊎◌, refl, ap, sym, ◌∙◌, false, [], ◌∷◌, All, arith, is_blank}
use membrane_ai.Errs.{nil, ok}
use membrane_ai.Assurance.Status.{
  IntegrationStatus, completed, GateDecision, pass, warn, block, EvalResult, Policy,
  map_eval_status, decide, validate_decision, validate_status,
}
use membrane_ai.Assurance.Status.Mapping.{IsCleanRun, map_eval_status-completed}
use membrane_ai.Assurance.Gate.{GateResult, combined_gate}
use membrane_ai.Assurance.Gate.Precedence.{combined_gate-pass, combined_gate_cites}
use membrane_ai.Assurance.Contract.{
  Time, is_zero, ReleaseEvidence, validate_correlation, validate_evidence,
}
use membrane_ai.Assurance.Contract.Checks.{
  IsCorrelated, IsKnownDecision, IsFailSafe, IsSound, validate_correlation_iff,
  validate_evidence_iff,
}
use membrane_ai.Assurance.Build.{BuildInput, with_status, assemble, build_release_evidence}

-- The input holds all that the record needs.
pub record IsComplete (b : BuildInput) : Type 0 where
  pub correlated : IsCorrelated b.correlation
  pub known_verdict : IsKnownDecision b.code_verdict
  pub evaluated :
      All
        (λ v. is_blank v ≡ false)
        (b.agent.baseline_version ∷ b.agent.candidate_version ∷ b.agent.agent_twin_project
          ∷ b.agent.evaluation_run_id ∷ b.agent.seed ∷ b.snapshot_hash ∷ [])
  pub selected : b.agent.scenario_selection ≢ []

map_eval_status-known : (r : EvalResult) → validate_status (map_eval_status r) ≡ nil
unfolding map_eval_status validate_status
map_eval_status-known r = ground arith

combined_gate-known :
    (s : IntegrationStatus) (code : GateDecision) (p : Policy)
    → validate_decision (combined_gate s code p).decision ≡ nil
unfolding combined_gate decide validate_decision
combined_gate-known s code p = ground arith

-- The decision of the gate keeps the two invariants of the record by itself.
assemble-IsFailSafe : (wall : Time) (b : BuildInput) → IsFailSafe (assemble wall b)
unfolding assemble
assemble-IsFailSafe wall b =
    let status = map_eval_status (with_status b.agent.counts b.agent.raw_status) in
    record {
      pass_is_clean = λ e. ((combined_gate-pass status b.code_verdict b.policy).0 e).0;
      explained = combined_gate_cites status b.code_verdict b.policy;
    }

assemble-IsSound :
    (wall : Time) (b : BuildInput) → is_zero wall ≡ false → IsComplete b → IsSound (assemble wall b)
unfolding assemble
assemble-IsSound wall b w c = record {
  version = refl;
  filled = assumption;
  dated = ground arith;
  sha = c.correlated.sha;
  selected = c.selected;
  known_status = map_eval_status-known _;
  known_gate = combined_gate-known _ b.code_verdict b.policy;
  known_verdict = c.known_verdict;
  fail_safe = unfold assemble in assemble-IsFailSafe wall b;
}

IsSound-IsComplete :
    (wall : Time) (b : BuildInput)
    → IsCorrelated b.correlation
    → IsKnownDecision b.code_verdict
    → IsSound (assemble wall b)
    → IsComplete b
unfolding assemble
IsSound-IsComplete wall b correlated known sound = record {
  correlated = correlated;
  known_verdict = known;
  evaluated = sound.filled.1.1.1.1.1.1.1.1;
  selected = sound.selected;
}

build-eq-ok :
    (wall : Time) (b : BuildInput)
    → (build_release_evidence wall b ≡ ok (assemble wall b)) ↔ (
        (validate_correlation b.correlation ≡ nil)
        × (validate_decision b.code_verdict ≡ nil)
        × (validate_evidence (assemble wall b) ≡ nil))
unfolding build_release_evidence
build-eq-ok wall b = ground arith

-- Evidence is built exactly for a complete input, where the clock does not read the zero time: no
-- outcome of the evaluation and no code verdict makes the gate assemble a record that fails
-- `Validate`.
pub build_release_evidence_iff :
    (wall : Time) (b : BuildInput)
    → is_zero wall ≡ false
    → (build_release_evidence wall b ≡ ok (assemble wall b)) ↔ IsComplete b
build_release_evidence_iff wall b w =
    let (checks, built) = build-eq-ok wall b in
    let (correlated, uncorrelated) = validate_correlation_iff b.correlation in
    let (sound, unsound) = validate_evidence_iff (assemble wall b) in
    (
      λ e. IsSound-IsComplete wall b (correlated (checks e).0) (checks e).1 (sound (checks e).2),
      λ c.
          built (uncorrelated c.correlated, c.known_verdict, unsound (assemble-IsSound wall b w c)),
    )

built-eq-assemble :
    (wall : Time) (b : BuildInput) (ev : ReleaseEvidence)
    → build_release_evidence wall b ≡ ok ev
    → ev ≡ assemble wall b
unfolding build_release_evidence
built-eq-assemble wall b ev h = ground arith

-- What a built record says of the gate: it passes exactly for a clean run of the evaluation and a
-- code verdict other than BLOCK and WARN.
pub build_release_evidence-pass :
    (wall : Time) (b : BuildInput) (ev : ReleaseEvidence)
    → build_release_evidence wall b ≡ ok ev
    → (ev.gate_decision ≡ pass) ↔ (
        IsCleanRun (with_status b.agent.counts b.agent.raw_status)
        × (b.code_verdict ≢ block)
        × (b.code_verdict ≢ warn))
build_release_evidence-pass wall b ev h =
    let r = with_status b.agent.counts b.agent.raw_status in
    let decided : ev.gate_decision
        ≡ (combined_gate (map_eval_status r) b.code_verdict b.policy).decision =
      ap (λ (e : ReleaseEvidence). e.gate_decision) (built-eq-assemble wall b ev h)
      ∙ unfold assemble in refl in
    let (passes, passed) = combined_gate-pass (map_eval_status r) b.code_verdict b.policy in
    let (clean, unclean) = map_eval_status-completed r in
    (
      λ e.
          let (done, not_block, not_warn) = passes (sym decided ∙ e) in
          (clean done, not_block, not_warn),
      λ (c, not_block, not_warn). decided ∙ passed (unclean c, not_block, not_warn),
    )

clean_gate_of_error :
    (code : GateDecision) (p : Policy)
    → (code ≡ GateDecision.error) ⊎ (code ≡ GateDecision.incomplete)
    → combined_gate completed code p ≡ record { decision = pass; rules = [] }
unfolding combined_gate decide
clean_gate_of_error code p h = ground arith

-- A code verdict of ERROR or INCOMPLETE beside a clean run is released as PASS, with no rule cited.
pub code_error_passes :
    (wall : Time) (b : BuildInput)
    → is_zero wall ≡ false
    → IsComplete b
    → IsCleanRun (with_status b.agent.counts b.agent.raw_status)
    → (b.code_verdict ≡ GateDecision.error) ⊎ (b.code_verdict ≡ GateDecision.incomplete)
    → (ev : ReleaseEvidence) × (build_release_evidence wall b ≡ ok ev)
      × (ev.gate_decision ≡ pass)
      × (ev.triggered_rules ≡ [])
unfolding assemble
code_error_passes wall b w c clean faulty =
    let status =
      (map_eval_status-completed (with_status b.agent.counts b.agent.raw_status)).1 clean in
    let gate =
      ap (λ s. combined_gate s b.code_verdict b.policy) status
      ∙ clean_gate_of_error b.code_verdict b.policy faulty in
    (
      assemble wall b,
      (build_release_evidence_iff wall b w).1 c,
      ap (λ (g : GateResult). g.decision) gate,
      ap (λ (g : GateResult). g.rules) gate,
    )
