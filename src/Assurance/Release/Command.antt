-- ===== src/Assurance/Release/Command.antt =====
-- pkg/cmd/release-evidence/main.go: `run`, with the evidence store and the publication of the gate.
use membrane_ai.Base.{
  Bool, false, ◌||◌, not, List, [], ◌∷◌, ◌++◌, Str, bytes, ◌==◌, is_blank, if◌then◌else◌,
}
use membrane_ai.Base.Int.{pos}
use membrane_ai.Errs.{
  GoError, nil, plain, wrapped, is_err, validation_err, internal_err, Result, ok, err,
}
use membrane_ai.Assurance.Contract.{
  Time, CorrelationContext, correlation_schema_version, ReleaseEvidence,
}
use membrane_ai.Assurance.Allowlist.{NetLib}
use membrane_ai.Assurance.Build.{EvalResultRef, BuildInput, build_release_evidence}
use membrane_ai.Assurance.Client.{HttpLib}
use membrane_ai.Assurance.Scm.{
  ScmMode, shadow, enforce, ScmStatus, map_scm_status, publish_once, new_idempotent_publisher,
}
use membrane_ai.Assurance.Scm.GitHub.{GitHub, PostLib, new_github, github_publish}
use membrane_ai.Assurance.Scm.Render.{render_json, render_markdown}
use membrane_ai.Assurance.Store.{
  Codec, Dir, ReadResult, content, not_exist, failed, read_file, write_file, file_put, file_get,
}
use membrane_ai.Assurance.Release.{ScanSummary, code_verdict_of, or_default, EvalFlags, fetch_eval}

pub record Flags : Type 0 where
  pub scan_json : Str
  pub repo : Str
  pub commit : Str
  pub agent : Str
  pub org : Str
  pub project : Str
  pub release_id : Str
  pub correlation_id : Str
  pub eval : EvalFlags
  pub out : Str
  pub store : Str
  pub regenerate : Str
  pub publish_scm : Bool
  pub enforced : Bool
  pub github_token : Str
  pub github_base : Str

-- What the command works on: the network, the directory of the store and the fault of making it,
-- the other files, and what it has written to its standard output.
pub record World (W : Type 0) : Type 0 where
  pub net : W
  pub evidence : Dir
  pub mkdir_fault : GoError
  pub files : Dir
  pub stdout : List Str

-- The packages that the command calls: net/url, net/http for AgentTwin and for GitHub, and json for
-- the evidence and for the scan.
pub record Libs (W : Type 0) : Type 0 where
  pub url : NetLib
  pub twin : HttpLib W
  pub github : PostLib W
  pub codec : Codec
  pub scan_of : Str → Result ScanSummary

-- `NewFileStore`: its error.
unfoldable pub open_store : {W : Type 0} → Str → World W → GoError
open_store dir w =
    if is_blank dir
    then validation_err (bytes "assurance.NewFileStore") (bytes "dir is required") nil
    else if is_err w.mkdir_fault
    then internal_err (bytes "assurance.NewFileStore") (bytes "create store dir") w.mkdir_fault
    else nil

-- The correlation of the release.
abbrev pub correlation_of : Flags → CorrelationContext
correlation_of f = record {
  schema_version = correlation_schema_version;
  organization_id = f.org;
  project_id = f.project;
  code_submission_id = bytes "sub-" ++ f.commit;
  repository = f.repo;
  commit_sha = f.commit;
  pull_request_number = pos 0;
  release_id = or_default f.release_id (bytes "rel-" ++ f.commit);
  agent_id = f.agent;
  agent_version = bytes "candidate";
  change_set_id = [];
  correlation_id = or_default f.correlation_id (bytes "corr-" ++ f.commit);
  traceparent = [];
  tracestate = [];
}

-- The input of `BuildReleaseEvidence`, under the zero policy.
unfoldable pub input_of : Flags → Time → ScanSummary → EvalResultRef → BuildInput
unfolding or_default
input_of f now scan ref = record {
  correlation = correlation_of f;
  code_verdict = (code_verdict_of scan).0;
  code_findings = (code_verdict_of scan).1;
  code_ruleset = bytes "scan-v1";
  code_evidence_url = [];
  agent = ref;
  policy = record { regression_blocks = false; assurance_required = false };
  now = now;
  snapshot_hash = bytes "sha256:" ++ f.commit;
}

abbrev pub mode_of : Flags → ScmMode
mode_of f = if f.enforced then enforce else shadow

module _ {W : Type 0} (libs : Libs W) where
  -- `readScan`, on what the file holds.
  abbrev pub scan_from : ReadResult → Result ScanSummary
  scan_from not_exist = err (plain (bytes "no such file"))
  scan_from (failed e) = err e
  scan_from (content b) = parsed (libs.scan_of b)
    where
      parsed : Result ScanSummary → Result ScanSummary
      parsed (err e) = err (wrapped (bytes "parse scan json: ") e)
      parsed (ok s) = ok s

  -- `readScan`
  unfoldable pub read_scan : Str → World W → Result ScanSummary
  read_scan path w = scan_from (read_file path w.files)

  -- The two files of `emit`.
  abbrev pub write_both : Str → Str → Str → Dir → GoError × Dir
  write_both out json md d =
      let (er, d') = write_file (out ++ bytes ".json") json d in
      if is_err er then (er, d') else write_file (out ++ bytes ".md") md d'

  abbrev pub emitted : ReleaseEvidence → Str → World W → Result Str → GoError × World W
  emitted ev out w (err e) = (e, w)
  emitted ev out w (ok json) =
      let (er, d) = write_both out json (render_markdown ev) w.files in
      if out == []
      then (nil, record w { stdout = w.stdout ++ json ∷ [] })
      else (er, record w { files = d })

  -- `emit`
  unfoldable pub emit : ReleaseEvidence → Str → World W → GoError × World W
  unfolding render_markdown
  emit ev out w = emitted ev out w (render_json libs.codec.render ev)

  abbrev pub posted : World W → ScmStatus → Result GitHub → GoError × World W
  posted w s (err e) = (e, w)
  posted w s (ok g) =
      let (p, delivered, er) =
        publish_once (github_publish libs.github g) (new_idempotent_publisher w.net) s in
      (er, record w { net = p.world })

  -- `publishShadow`. The fake publisher, without a token, only counts.
  unfoldable pub publish_shadow : Flags → ReleaseEvidence → World W → GoError × World W
  publish_shadow f ev w =
      let s = map_scm_status ev (mode_of f) in
      if not (is_blank f.github_token)
      then posted w s (new_github f.github_base f.github_token)
      else (nil, w)

  -- `if er != nil { return er }` in front of the rest of `run`.
  abbrev pub then_run : GoError × World W → (World W → GoError × World W) → GoError × World W
  then_run (er, w) next = if is_err er then (er, w) else next w

  -- The part of `run` that persists the record.
  unfoldable pub persist : Flags → ReleaseEvidence → World W → GoError × World W
  unfolding open_store
  persist f ev w =
      let unopened = open_store f.store w in
      let (er, d) = file_put libs.codec ev w.evidence in
      if f.store == []
      then (nil, w)
      else if is_err unopened
      then (unopened, w)
      else (er, record w { evidence = d })

  -- The part of `run` from the built record on.
  unfoldable pub conclude_run : Flags → World W → Result ReleaseEvidence → GoError × World W
  unfolding persist publish_shadow emit
  conclude_run f w (err e) = (e, w)
  conclude_run f w (ok ev) = then_run (persist f ev w) (λ w1.
      then_run (if f.publish_scm then publish_shadow f ev w1 else (nil, w1))
        (λ w2. emit ev f.out w2))

  abbrev pub build_with :
      Flags → Time → Time → World W → ScanSummary → Result EvalResultRef → GoError × World W
  build_with f wall now w scan (err e) = (e, w)
  build_with f wall now w scan (ok ref) =
      conclude_run f w (build_release_evidence wall (input_of f now scan ref))

  -- The part of `run` that follows the scan.
  abbrev pub scanned : Flags → Time → Time → World W → Result ScanSummary → GoError × World W
  scanned f wall now w (err e) = (e, w)
  scanned f wall now w (ok scan) =
      let (n, answer) = fetch_eval libs.url libs.twin f.eval w.net in
      build_with f wall now (record w { net = n }) scan answer

  abbrev again : Flags → World W → Result ReleaseEvidence → GoError × World W
  again f w (err e) = (e, w)
  again f w (ok ev) = emit ev f.out w

  -- The part of `run` that regenerates a stored record.
  unfoldable pub regenerated : Flags → World W → GoError × World W
  unfolding open_store emit
  regenerated f w =
      let unopened = open_store f.store w in
      if f.store == []
      then (plain (bytes "--regenerate requires --store"), w)
      else if is_err unopened
      then (unopened, w)
      else again f w (file_get libs.codec f.regenerate w.evidence)

  -- `run`: `now` and `wall` are the times that it and `BuildReleaseEvidence` read.
  unfoldable pub run_command : Flags → Time → Time → World W → GoError × World W
  unfolding regenerated read_scan input_of conclude_run
  run_command f wall now w =
      if not (f.regenerate == [])
      then regenerated f w
      else if f.scan_json == [] || f.repo == [] || f.commit == []
      then (plain (bytes "--scan-json, --repo and --commit are required"), w)
      else scanned f wall now w (read_scan f.scan_json w)
