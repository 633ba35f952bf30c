-- ===== src/Assurance/Build.antt =====
-- pkg/assurance/builder.go: the release evidence of one release.
pub mod FailSafe
use membrane_ai.Base.{Bool, ◌&&◌, none, List, [], ◌∷◌, ◌++◌, Str, bytes, ◌==◌, if◌then◌else◌}
use membrane_ai.Base.Int.{ℤ}
use membrane_ai.Errs.{GoError, nil, is_err, validation_err, Result, ok, err}
use membrane_ai.Assurance.Status.{
  GateDecision, EvalResult, Policy, map_eval_status, validate_decision,
}
use membrane_ai.Assurance.Gate.{combined_gate}
use membrane_ai.Assurance.Contract.{
  Time, is_zero, evidence_schema_version, CorrelationContext, validate_correlation, ScenarioOutcome,
  ReleaseEvidence, validate_evidence,
}

pub record EvalResultRef : Type 0 where
  pub evaluation_run_id : Str
  pub agent_twin_project : Str
  pub baseline_version : Str
  pub candidate_version : Str
  pub seed : Str
  pub raw_status : Str
  pub counts : EvalResult
  pub scenario_selection : List Str
  pub per_scenario : List ScenarioOutcome
  pub simulation_pair_ids : List Str
  pub engine_version : Str
  pub evaluator_version : Str

pub record BuildInput : Type 0 where
  pub correlation : CorrelationContext
  pub code_verdict : GateDecision
  pub code_findings : List (Str × ℤ)
  pub code_ruleset : Str
  pub code_evidence_url : Str
  pub agent : EvalResultRef
  pub policy : Policy
  pub now : Time
  pub snapshot_hash : Str

-- `EvalResult.withStatus`
unfoldable pub with_status : EvalResult → Str → EvalResult
with_status c raw = record c { raw_status = raw }

abbrev pub is_critical : ScenarioOutcome → Bool
is_critical o = o.severity == bytes "critical" && o.status == bytes "NEW_CRITICAL_FAILURE"

unfoldable pub critical_only : List ScenarioOutcome → List ScenarioOutcome
critical_only [] = []
critical_only (o ∷ s) = let rest = critical_only s in if is_critical o then o ∷ rest else rest

-- The record that `BuildReleaseEvidence` assembles; `wall` is what `time.Now` gives.
unfoldable pub assemble : Time → BuildInput → ReleaseEvidence
assemble wall b =
    let status = map_eval_status (with_status b.agent.counts b.agent.raw_status) in
    let gate = combined_gate status b.code_verdict b.policy in
    record {
      schema_version = evidence_schema_version;
      release_id = b.correlation.release_id;
      correlation_id = b.correlation.correlation_id;
      created_at = if is_zero b.now then wall else b.now;
      organization_id = b.correlation.organization_id;
      project_id = b.correlation.project_id;
      repository = b.correlation.repository;
      code_submission_id = b.correlation.code_submission_id;
      commit_sha = b.correlation.commit_sha;
      pull_request_number = b.correlation.pull_request_number;
      code_verdict = b.code_verdict;
      ruleset_version = b.code_ruleset;
      findings_summary = b.code_findings;
      code_evidence_url = b.code_evidence_url;
      agent_id = b.correlation.agent_id;
      baseline_version = b.agent.baseline_version;
      candidate_version = b.agent.candidate_version;
      manifest_hash = [];
      prompt_hash = [];
      agent_twin_project_id = b.agent.agent_twin_project;
      evaluation_run_id = b.agent.evaluation_run_id;
      simulation_pair_ids = b.agent.simulation_pair_ids;
      scenario_selection = b.agent.scenario_selection;
      run_seed = b.agent.seed;
      engine_version = b.agent.engine_version;
      evaluator_version = b.agent.evaluator_version;
      overall_status = status;
      per_scenario = b.agent.per_scenario;
      critical_failures = critical_only b.agent.per_scenario;
      judge = none;
      gate_decision = gate.decision;
      triggered_rules = gate.rules;
      snapshot_hash = b.snapshot_hash;
      audit_ref = [];
    }

abbrev op_build : Str
op_build = bytes "assurance.BuildReleaseEvidence"

-- The error that wraps the first check that fails.
abbrev checked : Str → GoError → Result ReleaseEvidence → Result ReleaseEvidence
checked text cause rest = if is_err cause then err (validation_err op_build text cause) else rest

unfoldable pub build_release_evidence : Time → BuildInput → Result ReleaseEvidence
build_release_evidence wall b =
    checked (bytes "invalid correlation") (validate_correlation b.correlation) (
      checked (bytes "invalid code verdict") (validate_decision b.code_verdict) (
        checked (bytes "assembled evidence failed validation") (validate_evidence (assemble wall b))
          (ok (assemble wall b))))
