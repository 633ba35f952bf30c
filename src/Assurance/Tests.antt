-- ===== src/Assurance/Tests.antt =====
-- The assurance package on concrete releases, and its theorems at these inputs.
mod Releases
mod Stores
mod Clients
mod Publishing
mod Commands
mod Listing
use membrane_ai.Base.{
  ℕ, Bool, true, false, none, List, [], ◌∷◌, Str, bytes, trim_space, is_blank, ◌==◌,
}
use membrane_ai.Base.Int.{ℤ, pos}
use membrane_ai.Base.Maps.{lookup, insert}
use membrane_ai.Errs.{Result, ok, nil, kind_of}
use membrane_ai.Assurance.Status.{
  GateDecision, pass, EvalResult, Policy, normalize_status, map_eval_status, decide,
  validate_decision, validate_status, decision_string, status_string,
}
use membrane_ai.Assurance.Gate.{combined_gate}
use membrane_ai.Assurance.Contract.{
  CorrelationContext, ReleaseEvidence, correlation_schema_version, missing_field,
  looks_like_commit_sha, validate_correlation, validate_invariants, validate_enums,
  validate_evidence,
}
use membrane_ai.Assurance.Build.{
  EvalResultRef, BuildInput, with_status, critical_only, assemble, build_release_evidence,
}
use membrane_ai.Assurance.Store.{
  Codec, put, get, safe_file_name, read_file, write_file, file_put, file_get,
}

-- Everything that a release computes with.
run : Unit {0}
unfolding bytes is_blank normalize_status map_eval_status decide validate_decision validate_status
    decision_string status_string combined_gate missing_field looks_like_commit_sha
    validate_correlation validate_invariants validate_enums validate_evidence with_status
    critical_only assemble build_release_evidence put get safe_file_name read_file write_file
    file_put file_get lookup insert
run = tt

abbrev correlation : Str → CorrelationContext
correlation release_id = record {
  schema_version = correlation_schema_version;
  organization_id = bytes "org-demo";
  project_id = bytes "proj-demo";
  code_submission_id = bytes "sub-1";
  repository = bytes "acme/demo";
  commit_sha = bytes "aedc1ed4014a";
  pull_request_number = pos 0;
  release_id = release_id;
  agent_id = bytes "refund-agent";
  agent_version = bytes "1.3.1";
  change_set_id = [];
  correlation_id = bytes "corr-1";
  traceparent = [];
  tracestate = [];
}

abbrev counts : ℤ → EvalResult
counts critical = record {
  raw_status = [];
  new_critical_failures = critical;
  regressed = pos 0;
  incomplete = pos 0;
  errored = pos 0;
}

abbrev agent : Str → ℤ → EvalResultRef
agent raw_status critical = record {
  evaluation_run_id = bytes "run-1";
  agent_twin_project = bytes "twin-1";
  baseline_version = bytes "1.2.4";
  candidate_version = bytes "1.3.1";
  seed = bytes "42";
  raw_status = raw_status;
  counts = counts critical;
  scenario_selection = bytes "refund-happy-path" ∷ [];
  per_scenario = [];
  simulation_pair_ids = [];
  engine_version = [];
  evaluator_version = [];
}

abbrev policy : Policy
policy = record { regression_blocks = false; assurance_required = false }

abbrev input : Str → GateDecision → ℤ → BuildInput
input release_id code critical = record {
  correlation = correlation release_id;
  code_verdict = code;
  code_findings = [];
  code_ruleset = bytes "scan-v1";
  code_evidence_url = [];
  agent = agent (bytes " completed") critical;
  policy = policy;
  now = pos 9;
  snapshot_hash = bytes "sha256:abc";
}

abbrev evidence : Str → ReleaseEvidence
evidence release_id = assemble (pos 1) (input release_id pass (pos 0))

-- A codec for two records, by their release.
abbrev codec : Codec
codec = record { render = λ ev. ok ev.release_id; unmarshal = λ b. ok (evidence b) }
