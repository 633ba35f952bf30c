-- ===== src/Assurance/Release.antt =====
-- pkg/cmd/release-evidence/main.go: the command that makes the evidence of one release out of a scan
-- and an evaluation, stores it, publishes its gate and writes it out. Flags are already parsed;
-- package json, the network and the time are parameters. What is printed is left out.
pub mod Command
pub mod Steps
pub mod Gated
use membrane_ai.Base.{
  ℕ, Bool, true, false, ◌||◌, not, List, [], ◌∷◌, ◌++◌, none, some, Str, bytes, ◌==◌, is_blank, eqb,
  trim_space, if◌then◌else◌,
}
use membrane_ai.Base.Int.{ℤ, pos, is_pos}
use membrane_ai.Errs.{GoError, nil, plain, wrapped, is_err, Result, ok, err, ◌>>=◌}
use membrane_ai.Assurance.Status.{GateDecision, pass, warn, block}
use membrane_ai.Assurance.Allowlist.{NetLib, new_allowlist}
use membrane_ai.Assurance.Build.{EvalResultRef}
use membrane_ai.Assurance.Client.{HttpConfig, HttpLib, new_http_client, get_eval_result}

-- `scanResult`: the output of `membrane scan --json`.
pub record ScanSummary : Type 0 where
  pub files_scanned : ℤ
  pub blocking : ℤ
  pub warnings : ℤ
  pub infos : ℤ
  pub findings : List (Str × Str)

-- `codeVerdictOf`
unfoldable pub code_verdict_of : ScanSummary → GateDecision × List (Str × ℤ)
code_verdict_of s =
    let summary =
      (bytes "blocking", s.blocking)
      ∷ (bytes "warning", s.warnings)
      ∷ (bytes "info", s.infos)
      ∷ [] in
    if is_pos s.blocking
    then (block, summary)
    else if is_pos s.warnings
    then (warn, summary)
    else (pass, summary)

-- `orDefault`
unfoldable pub or_default : Str → Str → Str
or_default v d = if is_blank v then d else v

abbrev onto : ℕ → List Str → List Str
onto c [] = (c ∷ []) ∷ []
onto c (part ∷ parts) = (c ∷ part) ∷ parts

-- `strings.Split(s, ",")`
split_comma : Str → List Str
split_comma [] = [] ∷ []
split_comma (c ∷ s) = let parts = split_comma s in if eqb c b',' then [] ∷ parts else onto c parts

-- The loop of `splitNonEmpty`.
unfoldable pub trimmed_parts : List Str → List Str
trimmed_parts [] = []
trimmed_parts (p ∷ rest) =
    let more = trimmed_parts rest in if trim_space p == [] then more else trim_space p ∷ more

-- `splitNonEmpty`
unfoldable pub split_non_empty : Str → List Str
unfolding split_comma trimmed_parts
split_non_empty s = trimmed_parts (split_comma s)

-- `fakeRef`
abbrev pub fake_ref : EvalResultRef
fake_ref = record {
  evaluation_run_id = bytes "fake-1.3.0";
  agent_twin_project = bytes "demo";
  baseline_version = bytes "1.2.4";
  candidate_version = bytes "1.3.0";
  seed = bytes "42";
  raw_status = bytes "COMPLETED";
  counts = record {
    raw_status = [];
    new_critical_failures = pos 2;
    regressed = pos 1;
    incomplete = pos 0;
    errored = pos 0;
  };
  scenario_selection = bytes "refund-tool-success-lie" ∷ bytes "refund-timeout-after-mutation" ∷ [];
  per_scenario =
      record {
        scenario = bytes "refund-tool-success-lie";
        status = bytes "NEW_CRITICAL_FAILURE";
        severity = bytes "critical";
        evidence_urls = [];
      }
      ∷ record {
        scenario = bytes "refund-timeout-after-mutation";
        status = bytes "NEW_CRITICAL_FAILURE";
        severity = bytes "critical";
        evidence_urls = [];
      }
      ∷ [];
  simulation_pair_ids = [];
  engine_version = [];
  evaluator_version = [];
}

-- The flags that `fetchEval` is given.
pub record EvalFlags : Type 0 where
  pub use_fake : Bool
  pub url : Str
  pub key : Str
  pub eval_run_id : Str
  pub allow_loopback : Bool
  pub allowed_hosts : Str

-- The configuration of the client that `fetchEval` builds.
abbrev pub client_config : NetLib → EvalFlags → HttpConfig
client_config net f = record {
  base_url = f.url;
  api_key = f.key;
  org = [];
  allowlist = some (new_allowlist net f.allow_loopback (split_non_empty f.allowed_hosts));
  timeout = pos 0;
  max_response_bytes = pos 0;
}

module _ {W : Type 0} (net : NetLib) (lib : HttpLib W) where
  -- The call of the client, if there is one.
  abbrev pub fetch_with : EvalFlags → W → Result HttpConfig → W × Result EvalResultRef
  fetch_with f w (err e) = (w, err e)
  fetch_with f w (ok cfg) = get_eval_result lib cfg f.eval_run_id w

  -- `fetchEval`, without its label.
  unfoldable pub fetch_eval : EvalFlags → W → W × Result EvalResultRef
  fetch_eval f w =
      if f.use_fake || f.url == []
      then (w, ok fake_ref)
      else if f.eval_run_id == []
      then (
        w,
        err (
            plain (
              bytes
                "--eval-run-id is required in live mode (omit --agenttwin-url or pass --fake for the deterministic fake)")),
      )
      else fetch_with f w (new_http_client net (client_config net f))
