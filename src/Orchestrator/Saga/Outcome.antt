-- ===== src/Orchestrator/Saga/Outcome.antt =====
-- How a verdict's decision follows from its findings on every path, and how `Handle` fails.
use membrane_ai.Base.{
  ◌≡◌, ◌↔◌, true, false, List, Str, arith, inl, inr, Bool, Bool-cases, not, ◌&&◌, ◌⊎◌, any,
}
use membrane_ai.Errs.{GoError, is_err, err, ok, kind_of, unavailable}
use membrane_ai.Orchestrator.Verdict.{
  Submission, Finding, Verdict, approved, needs_review, rejected, Source, cache_key, is_warning,
  is_blocking,
}
use membrane_ai.Orchestrator.Saga.{
  Context, ProcessSubmission, publish_or_fail, handle, handle_hit, handle_miss,
}

-- Whether some finding is blocking, and whether one is a warning.
abbrev pub some_blocking : List Finding → Bool
some_blocking fs = any (λ f. is_blocking f.severity) fs

abbrev pub some_warning : List Finding → Bool
some_warning fs = any (λ f. is_warning f.severity) fs

-- The decision is the one that the severities of the findings call for, or needs_review by a
-- fallback that failed and left a warning.
abbrev pub IsExplained : Verdict → Type 0
IsExplained v =
    ((v.decision ≡ approved)
      ↔ ((some_blocking v.findings ≡ false) × (some_warning v.findings ≡ false)))
    × (((v.decision ≡ rejected) ↔ (some_blocking v.findings ≡ true))
        ⊎ ((v.source ≡ Source.fallback)
            × (v.decision ≡ needs_review)
            × (some_warning v.findings ≡ true)))

module _ {E : Type 0} (uc : ProcessSubmission E) (ctx : Context) (sub : Submission) where
  publish_or_fail-unavailable :
      (msg : Str) (v : Verdict) (e : E) {x : GoError}
      → (publish_or_fail uc ctx sub msg v e).0 ≡ err x
      → kind_of x ≡ unavailable
  unfolding publish_or_fail kind_of
  publish_or_fail-unavailable msg v e h = ground arith

  publish_or_fail-returns :
      (msg : Str) (v : Verdict) (e : E)
      → is_err (uc.publisher.publish ctx v e).0 ≡ false
      → (w : Verdict) × ((publish_or_fail uc ctx sub msg v e).0 ≡ ok w)
  unfolding publish_or_fail
  publish_or_fail-returns msg v e h = (v, rw h)

  -- Where the publisher accepts what it is given, `Handle` returns a verdict, whatever the cache,
  -- the stages and the fallback do: a failure of theirs never blocks the developer.
  pub handle-returns :
      (blake3 : Str → Str) (e : E)
      → ((v : Verdict) (e : E) → is_err (uc.publisher.publish ctx v e).0 ≡ false)
      → (v : Verdict) × ((handle uc ctx sub blake3 e).0 ≡ ok v)
  unfolding handle handle_hit handle_miss
  handle-returns blake3 e accepts =
      let key = cache_key blake3 sub.diff uc.opts.ruleset_version in
      let (cached, hit, er, e') = uc.cache.get ctx key e in
      elim (Bool-cases (not (is_err er) && hit)) [
        | inl found ↦ rw found (publish_or_fail-returns _ _ _ (accepts _ _))
        | inr missed ↦ rw missed (publish_or_fail-returns _ _ _ (accepts _ _))
      ]

  -- `Handle` fails only with an unavailable error: no failure of the cache, of a stage or of the
  -- fallback makes it fail another way.
  pub handle-unavailable :
      (blake3 : Str → Str) (e : E) (x : GoError)
      → (handle uc ctx sub blake3 e).0 ≡ err x
      → kind_of x ≡ unavailable
  unfolding handle handle_hit handle_miss
  handle-unavailable blake3 e x h =
      let key = cache_key blake3 sub.diff uc.opts.ruleset_version in
      let (cached, hit, er, e') = uc.cache.get ctx key e in
      elim (Bool-cases (not (is_err er) && hit)) [
        | inl found ↦ publish_or_fail-unavailable _ _ _ (rw (found, handle) at h)
        | inr missed ↦ publish_or_fail-unavailable _ _ _ (rw (missed, handle) at h)
      ]
