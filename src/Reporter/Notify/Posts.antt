-- ===== src/Reporter/Notify/Posts.antt =====
-- What it means that a destination reports no error.
use membrane_ai.Base.{
  ℕ, ◌≡◌, ◌⊎◌, inl, inr, refl, true, ◌||◌, ◌==◌, ==_iff, [], ◌++◌, List, Str, bytes, arith,
  Bool-cases, ap, ◌∙◌,
}
use membrane_ai.Base.Context.{Context}
use membrane_ai.Errs.{nil, is_err, Result, ok, err}
use membrane_ai.Reporter.Report.{Report}
use membrane_ai.Reporter.Notify.{
  status, HttpLib, GitHub, Wording, answer_error, post, notify_status, state_for, truncate,
  status_context, status_wording, repos_url, github_headers, bad_repository,
}

module _ {E : Type 0} (lib : HttpLib E) where
  answer_error-nil :
      (w : Wording) (answer : Result ℕ)
      → answer_error lib w answer ≡ nil
      → (code : ℕ) × (answer ≡ ok code) × (w.accepts code ≡ true)
  unfolding answer_error
  answer_error-nil w (err e) h = absurd (cc h)
  answer_error-nil w (ok code) h = (code, refl, ground (arith, h))

  -- The request has been sent and its status code accepted.
  abbrev pub Posted : Wording → Context → Str → List (Str × Str) → E → Str → Type 0
  Posted w ctx url headers e payload =
      (code : ℕ) × ((lib.send ctx (record { url = url; headers = headers; payload = payload }) e).0
        ≡ ok code)
      × (w.accepts code ≡ true)

  pub post-nil :
      (w : Wording) (ctx : Context) (url : Str) (headers : List (Str × Str)) (e : E)
      (r : Result Str)
      → (post lib w ctx url headers e r).0 ≡ nil
      → (payload : Str) × (r ≡ ok payload) × Posted w ctx url headers e payload
  unfolding post
  post-nil w ctx url headers e (err failed) h = absurd (cc h)
  post-nil w ctx url headers e (ok payload) h = elim (Bool-cases (is_err (lib.new_request url))) [
    | inl bad ↦ absurd (cc (rw bad at h))
    | inr good ↦ (payload, refl, answer_error-nil w _ (rw good at h))
  ]

  -- Where the status destination reports no error, the report has no repository or no commit, or else
  -- GitHub has answered 201 to a request for this commit that carries the state of its outcome.
  pub notify_status-nil :
      (g : GitHub) (ctx : Context) (r : Report) (e : E)
      → (notify_status lib g ctx r e).0 ≡ nil
      → ((r.repository ≡ []) ⊎ (r.commit_sha ≡ []))
        ⊎ ((payload : Str) × (lib.marshal
                (status (state_for r.outcome) (truncate r.title) status_context)
              ≡ ok payload)
            × ((lib.send ctx
                  (record {
                    url = repos_url g r.repository ++ bytes "/statuses/" ++ r.commit_sha;
                    headers = github_headers g;
                    payload = payload;
                  })
                  e).0
                ≡ ok 201))
  unfolding notify_status
  notify_status-nil g ctx r e h = elim (Bool-cases (r.repository == [] || r.commit_sha == [])) [
    | inl bare ↦ inl (elim (Bool-cases (r.repository == [])) [
      | inl e ↦ inl ((==_iff r.repository []).0 e)
      | inr e ↦ inr ((==_iff r.commit_sha []).0 (rw e at bare))
    ])
    | inr full ↦ elim (Bool-cases (bad_repository r.repository)) [
      | inl bad ↦ absurd (cc (rw bad at (rw full at h)))
      | inr good ↦
          let (payload, made, (code, answered, accepted)) =
            post-nil (status_wording lib) ctx
              (repos_url g r.repository ++ bytes "/statuses/" ++ r.commit_sha) (github_headers g) e
              (lib.marshal (status (state_for r.outcome) (truncate r.title) status_context))
              (rw good at (rw full at h)) in
          inr (payload, made, answered ∙ ap ok (ground (arith, accepted)))
    ]
  ]
