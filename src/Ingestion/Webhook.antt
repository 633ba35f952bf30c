-- ===== src/Ingestion/Webhook.antt =====
-- services/ingestion/internal/adapters/httpwebhook/handler.go: the handler of webhooks. Packages json,
-- hex and hmac are parameters; the digest is that of HMAC-SHA256.
pub mod Signed
use membrane_ai.Base.{
  ℕ, Bool, true, false, ◌&&◌, not, Option, none, some, List, [], ◌∷◌, Str, bytes, ◌==◌, has_prefix,
  length, if◌then◌else◌,
}
use membrane_ai.Base.Int.{ℤ, pos}
use membrane_ai.Base.Context.{Context}
use membrane_ai.Errs.{Kind, GoError, is_err, kind_of, error_string, Result, ok, err}
use membrane_ai.Http.{Response, read_limited}
use membrane_ai.Ingestion.Submission.{Submission, webhook, new_submission, attach_source}
use membrane_ai.Ingestion.Enqueue.{EnqueueResult, EnqueueSubmission, enqueue}

abbrev pub max_body : ℕ
max_body = 2097152

-- `payload`
pub record Payload : Type 0 where
  pub organization_id : Str
  pub repository : Str
  pub file_path : Str
  pub language : Str
  pub diff : Str
  pub commit_sha : Str
  pub pr_number : ℤ

-- The request: its method, its body (the content, and the error that the reading ends with) and its
-- signature header, which is empty where it is absent.
pub record Request : Type 0 where
  pub is_post : Bool
  pub body : Response
  pub signature : Str

-- `json.Unmarshal`, `hex.DecodeString`, and the digest `hmac.New(sha256.New, secret)` of a message.
pub record HookLib : Type 0 where
  pub unmarshal : Str → Result Payload
  pub decode_hex : Str → Result Str
  pub hmac : Str → Str → Str

-- What the handler writes.
pub data Answer : Type 0 where
  failure : (status : ℕ) → (message : Str) → Answer
  accepted : (status : ℕ) → (submission_id status_text : Str) → Answer

-- `httpStatus`
unfoldable pub http_status : Kind → ℕ
http_status Kind.validation = 400
http_status Kind.not_found = 404
http_status Kind.conflict = 409
http_status Kind.unauthorized = 401
http_status Kind.unavailable = 503
http_status _ = 500

abbrev pub prefix : Str
prefix = bytes "sha256="

-- `strings.TrimPrefix` of a text with the prefix.
abbrev pub drop_prefix : Str → Str → Str
drop_prefix [] s = s
drop_prefix (c ∷ p) [] = []
drop_prefix (c ∷ p) (d ∷ s) = drop_prefix p s

module _ (lib : HookLib) where
  abbrev pub equals_digest : Str → Str → Result Str → Bool
  equals_digest secret body (err e) = false
  equals_digest secret body (ok want) = want == lib.hmac secret body

  -- `validSignature`
  unfoldable pub valid_signature : Str → Str → Str → Bool
  valid_signature secret body header =
      let checked = equals_digest secret body (lib.decode_hex (drop_prefix prefix header)) in
      if not (has_prefix header prefix) then false else checked

  module _ {E : Type 0} (uc : EnqueueSubmission E) where
    abbrev refused : GoError → Answer
    refused e = failure (http_status (kind_of e)) (error_string e)

    abbrev pub queued : Result EnqueueResult × E → Answer × E
    queued (err e, w) = (refused e, w)
    queued (ok res, w) = (accepted 202 res.submission_id res.status, w)

    abbrev pub on_submission : Context → Payload → E → Result Submission → Answer × E
    on_submission ctx p w (err e) = (refused e, w)
    on_submission ctx p w (ok sub) =
        queued (enqueue uc ctx (attach_source sub p.commit_sha p.pr_number) w)

    -- The part of the handler that follows the decoding of the body.
    abbrev pub on_payload : Context → E → Result Payload → Answer × E
    on_payload ctx w (err e) = (failure 400 (bytes "invalid json"), w)
    on_payload ctx w (ok p) =
        on_submission ctx p w
          (new_submission p.organization_id p.repository p.file_path p.language p.diff webhook)

    -- The part that follows the reading of the body.
    abbrev pub on_body : Str → Context → Str → E → Result Str → Answer × E
    on_body secret ctx signature w (err e) = (failure 400 (bytes "cannot read body"), w)
    on_body secret ctx signature w (ok body) =
        if not (secret == []) && not (valid_signature secret body signature)
        then (failure 401 (bytes "invalid signature"), w)
        else on_payload ctx w (lib.unmarshal body)

    -- `Handler.ServeHTTP`, with the secret of `New`
    unfoldable pub serve_http : Str → Context → Request → E → Answer × E
    unfolding http_status valid_signature
    serve_http secret ctx r w =
        let rest = on_body secret ctx r.signature w (read_limited (pos max_body) r.body) in
        if not r.is_post then (failure 405 (bytes "method not allowed"), w) else rest
