-- ===== src/Assurance/Tests/Clients.antt =====
-- The theorems on the destinations and the client of AgentTwin at concrete inputs.
use membrane_ai.Base.{
  ◌≡◌, ◌↔◌, false, none, some, List, [], ◌∷◌, bytes, is_blank, trim_space, arith,
}
use membrane_ai.Base.Int.{pos}
use membrane_ai.Errs.{nil, is_err, ok}
use membrane_ai.Assurance.Allowlist.{Url, NetLib, Allowlist, check_url}
use membrane_ai.Assurance.Allowlist.Destinations.{IsAllowed, check_url_iff}
use membrane_ai.Assurance.Client.{HttpConfig, HttpLib, Request, eval_request, get_eval_result}
use membrane_ai.Assurance.Client.Fetched.{Carries, get_eval_result_iff}
use membrane_ai.Assurance.Client.Wire.{EvalDetail, map_eval_detail}
use membrane_ai.Assurance.Client.Escape.{
  path_unescape, url_path_escape, path_unescape-url_path_escape,
}

abbrev pub net : NetLib
net = record {
  parse = λ s. ok (record { scheme = bytes "https"; has_user = false; hostname = s; port = [] });
  to_lower = λ s. s;
  ip_is_loopback = λ s. none;
}

abbrev allowed : Allowlist
allowed = record { hosts = (bytes "twin.example", tt) ∷ []; allow_loopback = false }

check_url_iff_example : (check_url net allowed (bytes " twin.example") ≡ nil) ↔ (
    (u : Url) × (net.parse (trim_space (bytes " twin.example")) ≡ ok u) × IsAllowed net allowed u)
check_url_iff_example = check_url_iff net allowed (bytes " twin.example")

path_unescape-url_path_escape_example :
    path_unescape (url_path_escape (bytes "a/b")) ≡ some (bytes "a/b")
unfolding bytes
path_unescape-url_path_escape_example =
    path_unescape-url_path_escape (bytes "a/b") (ground arith, (ground arith, (ground arith, tt)))

abbrev cfg : HttpConfig
cfg = record {
  base_url = bytes "https://twin.example";
  api_key = bytes "k";
  org = [];
  allowlist = some allowed;
  timeout = pos 1;
  max_response_bytes = pos 100;
}

abbrev pub detail : EvalDetail
detail = record {
  run = record {
    id = bytes "run-1";
    project_id = bytes "twin-1";
    agent_name = bytes "refund-agent";
    baseline_version = bytes "1.2.4";
    candidate_version = bytes "1.3.1";
    seed = some (pos 42);
    status = bytes "completed";
    counts = record {
      new_critical_failure = pos 0;
      regressed = pos 0;
      improved = pos 1;
      unchanged = pos 2;
      incomplete = pos 0;
    };
    baseline_run_id = some (bytes "b-1");
    candidate_run_id = none;
  };
  summary = none;
  cases =
      record {
        scenario_name = bytes "refund";
        severity = bytes "high";
        classification = bytes "unchanged";
      }
      ∷ [];
}

-- AgentTwin answers each request with the evaluation.
abbrev twin : HttpLib (List Request)
twin = record {
  new_request = λ url. nil;
  send = λ request sent.
      (request ∷ sent, ok (record { status_code = 200; content = bytes "{}"; broken = nil }));
  unmarshal = λ body. ok detail;
}

get_eval_result_iff_example :
    (get_eval_result twin cfg (bytes "run-1") []
      ≡ (eval_request cfg (bytes "run-1") ∷ [], ok (map_eval_detail detail)))
    ↔ ((is_blank (bytes "run-1") ≡ false)
        × (is_err nil ≡ false)
        × (eval_request cfg (bytes "run-1") ∷ [] ≡ eval_request cfg (bytes "run-1") ∷ [])
        × Carries twin cfg
            (ok (record { status_code = 200; content = bytes "{}"; broken = nil }))
            (map_eval_detail detail))
get_eval_result_iff_example =
    get_eval_result_iff twin cfg (bytes "run-1") [] (eval_request cfg (bytes "run-1") ∷ [])
      (map_eval_detail detail)
