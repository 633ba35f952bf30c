-- ===== src/Assurance/Tests/Commands.antt =====
-- The theorem on the release command at a concrete release, with the fake evaluation. The world of
-- the network is the list of the requests to GitHub, which answers 201.
use membrane_ai.Base.{◌≡◌, ◌↔◌, refl, true, false, List, [], ◌∷◌, ◌++◌, bytes}
use membrane_ai.Base.Int.{pos, is_pos}
use membrane_ai.Errs.{nil, plain, ok, err}
use membrane_ai.Assurance.Status.Mapping.{IsCleanRun}
use membrane_ai.Assurance.Contract.{ReleaseEvidence}
use membrane_ai.Assurance.Build.{with_status, assemble, build_release_evidence}
use membrane_ai.Assurance.Scm.{
  map_scm_status, is_seen, same_state, publish_once, validate_status_coordinates, cut_slash,
}
use membrane_ai.Assurance.Scm.GitHub.{
  GitHub, PostRequest, new_github, github_publish, post_status, post_error,
}
use membrane_ai.Assurance.Store.{file_get}
use membrane_ai.Assurance.Store.Memory.{RoundTrips}
use membrane_ai.Assurance.Scm.Posted.{IsPosted}
use membrane_ai.Assurance.Scm.Render.{render_json}
use membrane_ai.Assurance.Release.{ScanSummary, fake_ref, code_verdict_of, or_default, fetch_eval}
use membrane_ai.Assurance.Release.Command.{
  Flags, World, Libs, open_store, input_of, mode_of, read_scan, emit, publish_shadow, persist,
  conclude_run, regenerated, run_command,
}
use membrane_ai.Assurance.Release.Gated.{run_command-IsGated}
use membrane_ai.Assurance.Tests.{run}
use membrane_ai.Assurance.Tests.Clients.{net, detail}

running : Unit {0}
unfolding run code_verdict_of or_default fetch_eval open_store input_of read_scan emit
    publish_shadow persist conclude_run regenerated run_command map_scm_status is_seen same_state
    publish_once validate_status_coordinates cut_slash new_github github_publish post_status
    post_error render_json
running = tt

abbrev summary : ScanSummary
summary = record {
  files_scanned = pos 3;
  blocking = pos 1;
  warnings = pos 0;
  infos = pos 0;
  findings = [];
}

abbrev flags : Flags
flags = record {
  scan_json = bytes "scan.json";
  repo = bytes "acme/demo";
  commit = bytes "aedc1ed4014a";
  agent = bytes "refund-agent";
  org = bytes "org";
  project = bytes "demo";
  release_id = [];
  correlation_id = [];
  eval = record {
    use_fake = true;
    url = [];
    key = [];
    eval_run_id = [];
    allow_loopback = false;
    allowed_hosts = [];
  };
  out = [];
  store = bytes "evidence";
  regenerate = [];
  publish_scm = true;
  enforced = true;
  github_token = bytes "t";
  github_base = [];
}

abbrev libs : Libs (List PostRequest)
libs = record {
  url = net;
  twin = record {
    new_request = λ url. nil;
    send = λ request sent. (sent, err (plain (bytes "no network")));
    unmarshal = λ body. ok detail;
  };
  github = record {
    marshal = λ p. ok p.state;
    new_request = λ url. nil;
    send = λ request sent. (sent ++ request ∷ [], ok 201);
  };
  codec = record {
    render = λ ev. ok (bytes "record");
    unmarshal = λ b. ok (assemble (pos 2) (input_of flags (pos 1) summary fake_ref));
  };
  scan_of = λ text. ok summary;
}

abbrev world : World (List PostRequest)
world = record {
  net = [];
  evidence = record { files = []; read_fault = λ n. nil; write_fault = λ n. nil };
  mkdir_fault = nil;
  files = record {
    files = (bytes "scan.json", bytes "{}") ∷ [];
    read_fault = λ n. nil;
    write_fault = λ n. nil;
  };
  stdout = [];
}

abbrev after_run : World (List PostRequest)
after_run = (run_command libs flags (pos 2) (pos 1) world).1

scan_read : read_scan libs (bytes "scan.json") world ≡ ok summary
unfolding running
scan_read = refl

faked : (fetch_eval net libs.twin flags.eval []).1 ≡ ok fake_ref
unfolding running
faked = refl

ran : run_command libs flags (pos 2) (pos 1) world ≡ (nil, after_run)
unfolding running
ran = refl

abbrev released : ReleaseEvidence
released = assemble (pos 2) (input_of flags (pos 1) summary fake_ref)

released_built :
    build_release_evidence (pos 2) (input_of flags (pos 1) summary fake_ref) ≡ ok released
unfolding running
released_built = refl

released-RoundTrips : RoundTrips libs.codec released
released-RoundTrips = (bytes "record", refl, refl)

run_command-IsGated_example :
    (((map_scm_status released (mode_of flags)).state ≡ bytes "success") ↔ (
      IsCleanRun (with_status fake_ref.counts fake_ref.raw_status)
      × (is_pos summary.blocking ≡ false)
      × (is_pos summary.warnings ≡ false)))
    × (file_get libs.codec released.release_id after_run.evidence ≡ ok released)
    × (g : GitHub) × (new_github [] (bytes "t") ≡ ok g)
    × IsPosted libs.github g [] (map_scm_status released (mode_of flags))
unfolding running
run_command-IsGated_example =
    run_command-IsGated libs flags (pos 2) (pos 1) world after_run summary fake_ref released refl
      (λ e. cc) refl refl scan_read faked released_built released-RoundTrips refl refl ran
