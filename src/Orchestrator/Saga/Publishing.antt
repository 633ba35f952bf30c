-- ===== src/Orchestrator/Saga/Publishing.antt =====
-- A verdict that `Handle` returns is published by that call, once, under the submission's identity.
use membrane_ai.Base.{
  ◌≡◌, refl, ◌∙◌, false, Option, none, some, List, [], ◌∷◌, ◌++◌, Str, arith, inl, inr, Bool-cases,
  not, ◌&&◌,
}
use mathlib.Core.Path.{subst}
use membrane_ai.Orchestrator.Saga.Quiet.{IsQuiet, analyze-quiet}
use membrane_ai.Errs.{is_err, ok}
use membrane_ai.Orchestrator.Verdict.{
  Submission, Finding, Verdict, Decision, Source, pipeline, stamp_source, cache_key,
}
use membrane_ai.Orchestrator.Saga.{
  Context, with_timeout, without_cancel, ProcessSubmission, verdict_of, run_fallback, conclude,
  analyze, publish_or_fail, remember, handle_miss, handle_hit, handle,
}

-- `published` is what has been published so far, as the state of the world shows it. A publisher
-- that reports no error has added the verdict, and nothing but the publisher adds one.
pub record Journal {E : Type 0} (uc : ProcessSubmission E) (published : E → List Verdict)
    : Type 0 where
  pub publish_adds :
      (ctx : Context) (v : Verdict) (e : E)
      → is_err (uc.publisher.publish ctx v e).0 ≡ false
      → published (uc.publisher.publish ctx v e).1 ≡ published e ++ v ∷ []
  pub get_quiet :
      (ctx : Context) (k : Str) (e : E) → published (uc.cache.get ctx k e).3 ≡ published e
  pub set_quiet :
      (ctx : Context) (k : Str) (v : Verdict) (e : E)
      → published (uc.cache.set ctx k v e).1 ≡ published e
  pub quiet : IsQuiet published uc

-- The verdict carries the identity and the source coordinates of the submission.
pub record IsStamped (v : Verdict) (sub : Submission) : Type 0 where
  pub submission_id : v.submission_id ≡ sub.submission_id
  pub organization_id : v.organization_id ≡ sub.organization_id
  pub repository : v.repository ≡ sub.repository
  pub commit_sha : v.commit_sha ≡ sub.commit_sha
  pub pr_number : v.pr_number ≡ sub.pr_number

module _ {E : Type 0} {uc : ProcessSubmission E} {published : E → List Verdict}
    (j : Journal uc published) (ctx : Context) (sub : Submission) where
  remember-quiet :
      (key : Str) (v : Verdict) (s : Source) (e : E)
      → published (remember uc ctx sub key v s e) ≡ published e
  unfolding remember
  remember-quiet key v pipeline e = j.set_quiet ctx key _ e
  remember-quiet key v _ e = refl

  publish_or_fail-adds :
      (msg : Str) (v w : Verdict) (e e0 : E)
      → IsStamped v sub
      → published e ≡ published e0
      → (publish_or_fail uc ctx sub msg v e).0 ≡ ok w
      → IsStamped w sub
        × (published (publish_or_fail uc ctx sub msg v e).1 ≡ published e0 ++ w ∷ [])
  unfolding publish_or_fail
  publish_or_fail-adds msg v w e e0 stamped quiet h =
      elim (Bool-cases (is_err (uc.publisher.publish ctx v e).0)) [
        | inl failed ↦ absurd (ground arith)
        | inr passed ↦
            let same : v ≡ w = ground arith in
            (
              subst (λ u. IsStamped u sub) same stamped,
              j.publish_adds ctx v e passed ∙ cc (quiet, same),
            )
      ]

  verdict_of-IsStamped :
      (d : Decision) (s : Source) (fs : List Finding) (e : E)
      → IsStamped (verdict_of uc ctx sub d s fs e).0 sub
  unfolding verdict_of stamp_source
  verdict_of-IsStamped d s fs e = ground arith

  run_fallback-IsStamped : (e : E) → IsStamped (run_fallback uc ctx sub e).0 sub
  unfolding run_fallback
  run_fallback-IsStamped e =
      let fb_ctx = with_timeout (without_cancel ctx) uc.opts.fallback_deadline in
      elim (Bool-cases (is_err (uc.fallback.analyze fb_ctx sub e).1)) [
        | inl failed ↦ rw failed (verdict_of-IsStamped _ _ _ _)
        | inr passed ↦ rw passed (verdict_of-IsStamped _ _ _ _)
      ]

  conclude-IsStamped :
      (outcome : Option (List Finding)) (e : E) → IsStamped (conclude uc ctx sub outcome e).0 sub
  unfolding conclude
  conclude-IsStamped none e = run_fallback-IsStamped e
  conclude-IsStamped (some findings) e = verdict_of-IsStamped _ _ _ e

  handle_hit-publishes :
      (cached v : Verdict) (e e0 : E)
      → published e ≡ published e0
      → (handle_hit uc ctx sub cached e).0 ≡ ok v
      → IsStamped v sub × (published (handle_hit uc ctx sub cached e).1 ≡ published e0 ++ v ∷ [])
  unfolding handle_hit
  handle_hit-publishes cached v e e0 quiet h =
      publish_or_fail-adds _ _ v e e0 (unfold stamp_source in ground arith) quiet h

  handle_miss-publishes :
      (key : Str) (v : Verdict) (e e0 : E)
      → published e ≡ published e0
      → (handle_miss uc ctx sub key e).0 ≡ ok v
      → IsStamped v sub × (published (handle_miss uc ctx sub key e).1 ≡ published e0 ++ v ∷ [])
  unfolding handle_miss
  handle_miss-publishes key v e e0 quiet h =
      publish_or_fail-adds _ _ v _ e0 (unfold analyze in conclude-IsStamped _ _)
        (remember-quiet key _ _ _ ∙ analyze-quiet published uc j.quiet ctx sub e ∙ quiet) h

  -- If `Handle` returns a verdict, this verdict carries the identity and the source coordinates of
  -- the submission at hand, and the call has published it exactly once and nothing else: from the
  -- cache, from the pipeline and from the fallback alike.
  pub handle-publishes :
      (blake3 : Str → Str) (v : Verdict) (e : E)
      → (handle uc ctx sub blake3 e).0 ≡ ok v
      → IsStamped v sub × (published (handle uc ctx sub blake3 e).1 ≡ published e ++ v ∷ [])
  unfolding handle
  handle-publishes blake3 v e h =
      let key = cache_key blake3 sub.diff uc.opts.ruleset_version in
      let (cached, hit, er, e') = uc.cache.get ctx key e in
      elim (Bool-cases (not (is_err er) && hit)) [
        | inl found ↦
            rw found
              (handle_hit-publishes cached v e' e (j.get_quiet ctx key e) (rw (found, handle) at h))
        | inr missed ↦
            rw missed
              (handle_miss-publishes key v e' e (j.get_quiet ctx key e) (rw (missed, handle) at h))
      ]
