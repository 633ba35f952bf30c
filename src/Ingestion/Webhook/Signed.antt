-- ===== src/Ingestion/Webhook/Signed.antt =====
-- What a webhook can queue.
use membrane_ai.Base.{
  ℕ, ◌≤◌, ◌≡◌, ◌⊎◌, inl, inr, refl, ap, true, false, ◌&&◌, not, [], ◌∷◌, ◌++◌, Str, bytes, ◌==◌,
  ==_iff, has_prefix, arith, Bool-cases,
}
use membrane_ai.Base.Int.{pos}
use membrane_ai.Base.Context.{Context}
use membrane_ai.Errs.{Kind, kind_of, error_string, Result, ok, err}
use membrane_ai.Http.{read_limited}
use membrane_ai.Ingestion.Submission.{
  Submission, webhook, new_submission, normalize_origin, attach_source,
}
use membrane_ai.Ingestion.Enqueue.{Event, IdGen, Clock, Bus, status_queued, in_memory}
use membrane_ai.Ingestion.Enqueue.Queued.{event_of, enqueue-eq}
use membrane_ai.Ingestion.Webhook.{
  max_body, Payload, Request, HookLib, Answer, failure, accepted, http_status, drop_prefix, prefix,
  equals_digest, valid_signature, queued, on_submission, on_payload, on_body, serve_http,
}

-- The header has the prefix, and its hexadecimal part decodes to the digest of the body.
abbrev pub IsSigned : HookLib → Str → Str → Str → Type 0
IsSigned lib secret body header =
    (has_prefix header prefix ≡ true)
    × (lib.decode_hex (drop_prefix prefix header) ≡ ok (lib.hmac secret body))

module _ (lib : HookLib) where
  equals_digest-ok :
      (secret body : Str) (want : Result Str)
      → equals_digest lib secret body want ≡ true
      → want ≡ ok (lib.hmac secret body)
  equals_digest-ok secret body (err e) h = absurd (cc h)
  equals_digest-ok secret body (ok want) h = ap ok ((==_iff want (lib.hmac secret body)).0 h)

  valid_signature-IsSigned :
      (secret body header : Str)
      → valid_signature lib secret body header ≡ true
      → IsSigned lib secret body header
  unfolding valid_signature
  valid_signature-IsSigned secret body header h = elim (Bool-cases (has_prefix header prefix)) [
    | inl there ↦ (there, equals_digest-ok secret body _ (rw there at h))
    | inr missing ↦ absurd (cc (rw missing at h))
  ]

  -- The request has queued one submission of a webhook, and its sender knows the secret, if there is one.
  pub record IsQueued {W : Type 0} (secret : Str) (r : Request) (before after : Bus W)
      (answer : Answer) : Type 0 where
    pub posted : r.is_post ≡ true
    pub body : Str
    pub read : read_limited (pos max_body) r.body ≡ ok body
    pub signed : (secret ≡ []) ⊎ IsSigned lib secret body r.signature
    pub payload : Payload
    pub decoded : lib.unmarshal body ≡ ok payload
    pub event : Event
    pub grown : after.events ≡ before.events ++ event ∷ []
    pub organization : event.organization_id ≡ event.submission.organization_id
    pub diff : event.submission.diff ≡ payload.diff
    pub origin : event.submission.origin ≡ webhook
    pub answered : answer ≡ accepted 202 event.submission_id status_queued

  -- The request was refused, and nothing has changed.
  abbrev pub IsRefused : {W : Type 0} → Bus W → Bus W → Answer → Type 0
  IsRefused before after answer =
      (after ≡ before)
      × ((status : ℕ) × (message : Str) × (400 ≤ status) × (answer ≡ failure status message))

signature_or_none :
    (lib : HookLib) (secret body header : Str)
    → (not (secret == []) && not (valid_signature lib secret body header)) ≡ false
    → (secret ≡ []) ⊎ IsSigned lib secret body header
signature_or_none lib secret body header h = elim (Bool-cases (secret == [])) [
  | inl none ↦ inl ((==_iff secret []).0 none)
  | inr some ↦ inr (valid_signature-IsSigned lib secret body header (ground (arith, h, some)))
]

http_status_bound : (k : Kind) → 400 ≤ http_status k
unfolding http_status
http_status_bound k = ground arith

new_submission-kept :
    (org repository file language diff : Str) (sub : Submission)
    → new_submission org repository file language diff webhook ≡ ok sub
    → (sub.diff ≡ diff) × (sub.origin ≡ webhook)
unfolding new_submission normalize_origin
new_submission-kept org repository file language diff sub h = (ground (arith, h), ground (arith, h))

module _ {W : Type 0} (lib : HookLib) (ids : IdGen W) (clock : Clock W) (secret : Str)
    (ctx : Context) (r : Request) (b : Bus W) where
  abbrev pub Outcome : Answer × Bus W → Type 0
  Outcome result = IsRefused lib b result.1 result.0 ⊎ IsQueued lib secret r b result.1 result.0

  refusal : (status : ℕ) (message : Str) → 400 ≤ status → Outcome (failure status message, b)
  refusal status message h = inl (refl, (status, message, h, refl))

  module _ (posted : r.is_post ≡ true) (body : Str)
      (read : read_limited (pos max_body) r.body ≡ ok body)
      (signed : (secret ≡ []) ⊎ IsSigned lib secret body r.signature) where
    submitted-Outcome :
        (p : Payload)
        → lib.unmarshal body ≡ ok p
        → (s : Result Submission)
        → new_submission p.organization_id p.repository p.file_path p.language p.diff webhook ≡ s
        → Outcome (on_submission lib (in_memory ids clock) ctx p b s)
    unfolding attach_source
    submitted-Outcome p decoded (err e) made =
        refusal (http_status (kind_of e)) (error_string e) (http_status_bound (kind_of e))
    submitted-Outcome p decoded (ok sub) made =
        let sent = attach_source sub p.commit_sha p.pr_number in
        let done = enqueue-eq ids clock ctx sent b in
        let (diff, origin) =
          new_submission-kept p.organization_id p.repository p.file_path p.language p.diff sub
            made in
        inr (record {
          posted = posted;
          body = body;
          read = read;
          signed = signed;
          payload = p;
          decoded = decoded;
          event = event_of ids clock ctx sent b.outside;
          grown = ap (λ x. (queued lib (in_memory ids clock) x).1.events) done;
          organization = refl;
          diff = diff;
          origin = origin;
          answered = ap (λ x. (queued lib (in_memory ids clock) x).0) done;
        })

    payload-Outcome :
        (p : Result Payload)
        → lib.unmarshal body ≡ p
        → Outcome (on_payload lib (in_memory ids clock) ctx b p)
    payload-Outcome (err e) decoded = refusal 400 (bytes "invalid json") (omega arith)
    payload-Outcome (ok p) decoded = submitted-Outcome p decoded _ refl

  body-Outcome :
      r.is_post ≡ true
      → (body : Result Str) → read_limited (pos max_body) r.body ≡ body
      → Outcome (on_body lib (in_memory ids clock) secret ctx r.signature b body)
  body-Outcome posted (err e) read = refusal 400 (bytes "cannot read body") (omega arith)
  body-Outcome posted (ok body) read =
      elim (Bool-cases (not (secret == []) && not (valid_signature lib secret body r.signature))) [
        | inl forged ↦ rw forged (refusal 401 (bytes "invalid signature") (omega arith))
        | inr fine ↦ rw fine (
            payload-Outcome posted body read (signature_or_none lib secret body r.signature fine)
              (lib.unmarshal body) refl)
      ]

  -- Whatever a webhook sends, to the ingestion over the in-memory bus, one of two things happens.
  -- Either it is refused with a status of at least 400, and nothing has changed; or the request was
  -- posted, has a readable body that decodes and, where there is a secret, a signature whose
  -- hexadecimal part is the digest of this body under the secret; and the bus has gained one event,
  -- with its diff and the origin "webhook", whose id the answer has.
  pub serve_http-Outcome : Outcome (serve_http lib (in_memory ids clock) secret ctx r b)
  unfolding serve_http
  serve_http-Outcome = elim (Bool-cases r.is_post) [
    | inl post ↦ simp (post) (body-Outcome post (read_limited (pos max_body) r.body) refl)
    | inr other ↦ simp (other) (refusal 405 (bytes "method not allowed") (omega arith))
  ]
