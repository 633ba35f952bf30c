-- ===== src/Ingestion/Tests/Handlers.antt =====
-- The theorems on the handlers at concrete requests.
use membrane_ai.Base.{true, none, some, [], ◌∷◌, ◌++◌, bytes}
use membrane_ai.Base.Int.{pos}
use membrane_ai.Base.Context.{background}
use membrane_ai.Errs.{nil, plain, ok}
use membrane_ai.Ingestion.Webhook.{Request, HookLib, serve_http}
use membrane_ai.Ingestion.Webhook.Signed.{Outcome, serve_http-Outcome}
use membrane_ai.Ingestion.Enqueue.{in_memory}
use membrane_ai.Ingestion.Server.{CodeSubmission, ProtoOrigin, message, stream_code_diff}
use membrane_ai.Ingestion.Server.Acked.{Acked, stream_code_diff-IsAcked}
use membrane_ai.Ingestion.Tests.{ids, clock, start}

-- The digest is the secret and the message.
abbrev hooks : HookLib
hooks = record {
  unmarshal = λ body. ok (record {
    organization_id = bytes "acme";
    repository = bytes "acme/app";
    file_path = bytes "main.go";
    language = bytes "go";
    diff = body;
    commit_sha = [];
    pr_number = pos 0;
  });
  decode_hex = λ s. ok s;
  hmac = λ secret body. secret ++ body;
}

abbrev hook : Request
hook = record {
  is_post = true;
  body = record { status_code = 0; content = bytes "+x"; broken = nil };
  signature = bytes "sha256=key+x";
}

serve_http-Outcome_example :
    Outcome hooks ids clock
      (bytes "key")
      background
      hook
      start
      (serve_http hooks (in_memory ids clock) (bytes "key") background hook start)
serve_http-Outcome_example = serve_http-Outcome hooks ids clock (bytes "key") background hook start

abbrev change_message : CodeSubmission
change_message = record {
  organization_id = bytes "acme";
  repository = bytes "acme/app";
  file_path = bytes "main.go";
  language = bytes "go";
  diff = bytes "+x";
  origin = ProtoOrigin.ide;
  commit_sha = [];
  pr_number = pos 0;
}

stream_code_diff-IsAcked_example : Acked ids clock background start (
    stream_code_diff
      (in_memory ids clock)
      background
      (message (some change_message) nil
        ∷ message (some change_message) (plain (bytes "reset"))
        ∷ message none nil
        ∷ [])
      start)
stream_code_diff-IsAcked_example =
    stream_code_diff-IsAcked ids clock background
      (message (some change_message) nil
        ∷ message (some change_message) (plain (bytes "reset"))
        ∷ message none nil
        ∷ [])
      start
