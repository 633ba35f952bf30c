-- ===== src/Assurance/Scm/Posted.antt =====
-- When GitHub has been given the commit status of a release.
use membrane_ai.Base.{ℕ, ◌≡◌, ◌≢◌, [], refl, ap, false, Str, arith, inl, inr, Bool-cases}
use membrane_ai.Errs.{GoError, nil, is_err, Result, ok, err, Result-cases}
use membrane_ai.Base.Maps.{lookup}
use membrane_ai.Assurance.Scm.{
  ScmStatus, recorded, is_seen, same_state, validate_status_coordinates, publish_once,
  new_idempotent_publisher,
}
use membrane_ai.Assurance.Scm.GitHub.{
  GitHub, PostLib, StatusPayload, truncate140, status_url, github_headers, post_error, post_status,
  github_publish,
}

abbrev payload_of : ScmStatus → StatusPayload
payload_of s = record { state = s.state; description = truncate140 s.title; context = s.context }

-- GitHub has answered 201 to a request for the commit of the status that carries its state.
pub record IsPosted {W : Type 0} (lib : PostLib W) (g : GitHub) (w : W) (s : ScmStatus)
    : Type 0 where
  pub payload : Str
  pub marshalled : lib.marshal (payload_of s) ≡ ok payload
  pub created :
      (lib.send
        (record { url = status_url g s; headers = github_headers g; payload = payload })
        w).1
      ≡ ok 201

post_error-nil : (answer : Result ℕ) → post_error answer ≡ nil → answer ≡ ok 201
unfolding post_error
post_error-nil (err e) h = absurd (cc h)
post_error-nil (ok code) h = ap ok (ground (arith, h))

module _ {W : Type 0} (lib : PostLib W) (g : GitHub) (w : W) (s : ScmStatus) where
  post_status-nil :
      (payload : Str)
      → (post_status lib g s w (ok payload)).1 ≡ nil
      → (lib.send
          (record { url = status_url g s; headers = github_headers g; payload = payload })
          w).1
        ≡ ok 201
  unfolding post_status
  post_status-nil payload h = elim (Bool-cases (is_err (lib.new_request (status_url g s)))) [
    | inl refused ↦ absurd (ground (arith, h, refused))
    | inr fine ↦ post_error-nil _ (rw fine at h)
  ]

  post_status-err : (e : GoError) → (post_status lib g s w (err e)).1 ≢ nil
  unfolding post_status
  post_status-err e h = cc h

  pub github_publish-nil : (github_publish lib g w s).1 ≡ nil → IsPosted lib g w s
  unfolding github_publish
  github_publish-nil h = elim (Bool-cases (is_err (validate_status_coordinates s))) [
    | inl invalid ↦ absurd (ground (arith, h, invalid))
    | inr valid ↦ elim (Result-cases (lib.marshal (payload_of s))) [
      | inl (payload, m) ↦ record {
        payload = payload;
        marshalled = m;
        created = post_status-nil payload (rw (valid, m) at h);
      }
      | inr (e, m) ↦ absurd (post_status-err e (rw (valid, m) at h))
    ]
  ]

  recorded-nil :
      (answer : W × GoError)
      → (recorded (new_idempotent_publisher w) s answer).2 ≡ nil
      → answer.1 ≡ nil
  recorded-nil (w', e) h = ground (arith, h)

  is_seen-fresh : is_seen [] s ≡ false
  unfolding is_seen same_state lookup
  is_seen-fresh = refl

  -- A fresh log does not hold a status back.
  pub publish_once-nil :
      (publish_once (github_publish lib g) (new_idempotent_publisher w) s).2 ≡ nil
      → IsPosted lib g w s
  unfolding publish_once
  publish_once-nil h =
      github_publish-nil (recorded-nil (github_publish lib g w s) (rw is_seen-fresh at h))
