-- ===== src/Assurance/Client/Fetched.antt =====
-- When an evaluation is got from AgentTwin, and how a failure is reported.
use membrane_ai.Base.{
  ℕ, ◌≤◌, ◌<◌, ◌≡◌, ◌↔◌, refl, sym, ap, false, Str, is_blank, arith, inl, inr, Bool-cases,
}
use membrane_ai.Errs.{is_err, Result, ok, err, Result-cases}
use membrane_ai.Http.{Response, read_limited}
use membrane_ai.Assurance.Build.{EvalResultRef}
use membrane_ai.Assurance.Client.Wire.{EvalDetail, map_eval_detail}
use membrane_ai.Assurance.Client.{
  HttpConfig, HttpLib, status_error, op_get, eval_request, on_response, get_eval_result, read_body,
}

abbrev IsSuccess : ℕ → Type 0
IsSuccess code = (200 ≤ code) × (code < 300)

status_error_iff : (op : Str) (code : ℕ) → (is_err (status_error op code) ≡ false) ↔ IsSuccess code
unfolding status_error
status_error_iff op code = ground arith

-- The response carries the evaluation.
pub record Carries {W : Type 0} (lib : HttpLib W) (cfg : HttpConfig) (answer : Result Response)
    (result : EvalResultRef) : Type 0 where
  pub response : Response
  pub body : Str
  pub detail : EvalDetail
  pub answered : answer ≡ ok response
  pub success : IsSuccess response.status_code
  pub read : read_limited cfg.max_response_bytes response ≡ ok body
  pub parsed : lib.unmarshal body ≡ ok detail
  pub mapped : result ≡ map_eval_detail detail

read_body-ok :
    (unmarshal : Str → Result EvalDetail) (read : Result Str) (result : EvalResultRef)
    → read_body unmarshal read ≡ ok result
    → (body : Str) × (d : EvalDetail) × (read ≡ ok body)
      × (unmarshal body ≡ ok d)
      × (result ≡ map_eval_detail d)
read_body-ok unmarshal (err e) result h = absurd (cc h)
read_body-ok unmarshal (ok body) result h = elim (Result-cases (unmarshal body)) [
  | inl (d, parsed) ↦ (body, d, refl, parsed, ground (arith, h, parsed))
  | inr (e, failed) ↦ absurd (ground (arith, h, failed))
]

module _ {W : Type 0} (lib : HttpLib W) (cfg : HttpConfig) where
  on_response-ok :
      (answer : Result Response) (result : EvalResultRef)
      → on_response lib cfg answer ≡ ok result
      → Carries lib cfg answer result
  unfolding on_response
  on_response-ok (err e) result h = absurd (cc h)
  on_response-ok (ok r) result h = elim (Bool-cases (is_err (status_error op_get r.status_code))) [
    | inl bad ↦ absurd (ground (arith, h, bad))
    | inr good ↦
        let (body, d, was_read, parsed, same) =
          read_body-ok lib.unmarshal (read_limited cfg.max_response_bytes r) result
            (ground (arith, h, good)) in
        record {
          response = r;
          body = body;
          detail = d;
          answered = refl;
          success = (status_error_iff op_get r.status_code).0 good;
          read = was_read;
          parsed = parsed;
          mapped = same;
        }
  ]

  on_response-carried :
      (answer : Result Response) (result : EvalResultRef)
      → Carries lib cfg answer result
      → on_response lib cfg answer ≡ ok result
  unfolding on_response
  on_response-carried answer result c = rw c.answered (
      rw ((status_error_iff op_get c.response.status_code).1 c.success)
        (rw c.read (rw c.parsed (ap ok (sym c.mapped)))))

  -- `GetEvalResult` returns a result exactly if the run has an id and its URL makes a request, and
  -- the response to this one request has a status from 200 to 299 and a body that is read, within
  -- the limit, and decodes; the result is then what the body says.
  pub get_eval_result_iff :
      (id : Str) (w w' : W) (result : EvalResultRef)
      → (get_eval_result lib cfg id w ≡ (w', ok result)) ↔ (
          (is_blank id ≡ false)
          × (is_err (lib.new_request (eval_request cfg id).url) ≡ false)
          × (w' ≡ (lib.send (eval_request cfg id) w).0)
          × Carries lib cfg (lib.send (eval_request cfg id) w).1 result)
  unfolding get_eval_result
  get_eval_result_iff id w w' result =
      let answer = (lib.send (eval_request cfg id) w).1 in
      elim (Bool-cases (is_blank id)) [
        | inl blank ↦ rw blank ((λ h. absurd (cc h)), (λ p. absurd (cc p.0)))
        | inr named ↦
            rw named (elim (Bool-cases (is_err (lib.new_request (eval_request cfg id).url))) [
              | inl bad ↦ rw bad ((λ h. absurd (cc h)), (λ p. absurd (cc p.1)))
              | inr good ↦ rw good (
                (λ h. (refl, refl, cc h, on_response-ok answer result (cc h))),
                (λ (a, b, moved, carried). cc (moved, on_response-carried answer result carried)),
              )
            ])
      ]
