-- ===== src/Orchestrator/Saga/Returned.antt =====
-- Which verdict `Handle` returns.
use membrane_ai.Base.{
  ◌≡◌, ◌⊎◌, refl, true, Option, none, some, List, Str, arith, inl, inr, Bool-cases, not, ◌&&◌,
}
use membrane_ai.Errs.{is_err, ok}
use membrane_ai.Orchestrator.Verdict.{
  Submission, Finding, Verdict, Decision, approved, needs_review, rejected, Source, consolidate,
  cache_key, stamp_source,
}
use membrane_ai.Orchestrator.Verdict.Decisions.{consolidate-eq-decision_of}
use membrane_ai.Orchestrator.Saga.{
  Context, with_timeout, without_cancel, ProcessSubmission, verdict_of, run_fallback, conclude,
  analyze, publish_or_fail, handle, handle_hit, handle_miss,
}

-- The constants of the type.
abbrev pub IsDecision : Decision → Type 0
IsDecision d = (d ≡ approved) ⊎ ((d ≡ rejected) ⊎ (d ≡ needs_review))

consolidate-IsDecision : (fs : List Finding) → IsDecision (consolidate fs)
consolidate-IsDecision fs = ground (arith, consolidate-eq-decision_of fs)

module _ {E : Type 0} (uc : ProcessSubmission E) (ctx : Context) (sub : Submission) where
  -- A verdict of this submission and its commit, with one of the constants as its decision.
  pub record IsVerdictOf (v : Verdict) : Type 0 where
    pub submission_id : v.submission_id ≡ sub.submission_id
    pub commit_sha : v.commit_sha ≡ sub.commit_sha
    pub decision : IsDecision v.decision

  verdict_of-IsVerdictOf :
      (d : Decision) (s : Source) (fs : List Finding) (e : E)
      → IsDecision d
      → IsVerdictOf (verdict_of uc ctx sub d s fs e).0
  unfolding verdict_of stamp_source
  verdict_of-IsVerdictOf d s fs e h = record {
    submission_id = refl;
    commit_sha = refl;
    decision = h;
  }

  run_fallback-IsVerdictOf : (e : E) → IsVerdictOf (run_fallback uc ctx sub e).0
  unfolding run_fallback
  run_fallback-IsVerdictOf e =
      let fb_ctx = with_timeout (without_cancel ctx) uc.opts.fallback_deadline in
      elim (Bool-cases (is_err (uc.fallback.analyze fb_ctx sub e).1)) [
        | inl failed ↦ rw failed (verdict_of-IsVerdictOf _ _ _ _ (inr (inr refl)))
        | inr passed ↦ rw passed (verdict_of-IsVerdictOf _ _ _ _ (consolidate-IsDecision _))
      ]

  conclude-IsVerdictOf :
      (outcome : Option (List Finding)) (e : E) → IsVerdictOf (conclude uc ctx sub outcome e).0
  unfolding conclude
  conclude-IsVerdictOf none e = run_fallback-IsVerdictOf e
  conclude-IsVerdictOf (some fs) e = verdict_of-IsVerdictOf _ _ fs e (consolidate-IsDecision fs)

  analyze-IsVerdictOf : (e : E) → IsVerdictOf (analyze uc ctx sub e).0
  unfolding analyze
  analyze-IsVerdictOf e = conclude-IsVerdictOf _ _

  publish_or_fail-given :
      (msg : Str) (v w : Verdict) (e : E)
      → (publish_or_fail uc ctx sub msg v e).0 ≡ ok w
      → IsVerdictOf v
      → IsVerdictOf w
  unfolding publish_or_fail
  publish_or_fail-given msg v w e h is =
      elim (Bool-cases (is_err (uc.publisher.publish ctx v e).0)) [
        | inl failed ↦ absurd (cc (rw failed at h))
        | inr passed ↦ let same : v ≡ w = cc (rw passed at h) in rw (← same) is
      ]

  -- What `Handle` returns, where an entry that the cache finds has one of the constants.
  pub handle-IsVerdictOf :
      (blake3 : Str → Str) (e : E) (v : Verdict)
      → ((uc.cache.get ctx (cache_key blake3 sub.diff uc.opts.ruleset_version) e).1 ≡ true
          → IsDecision
              (uc.cache.get ctx (cache_key blake3 sub.diff uc.opts.ruleset_version) e).0.decision)
      → (handle uc ctx sub blake3 e).0 ≡ ok v
      → IsVerdictOf v
  unfolding handle handle_hit handle_miss stamp_source
  handle-IsVerdictOf blake3 e v known h =
      let key = cache_key blake3 sub.diff uc.opts.ruleset_version in
      let (cached, hit, er, e') = uc.cache.get ctx key e in
      elim (Bool-cases (not (is_err er) && hit)) [
        | inl found ↦
            let hits : hit ≡ true = ground (arith, found) in
            publish_or_fail-given _ _ v _ (rw (found, handle) at h)
              (record { submission_id = refl; commit_sha = refl; decision = known hits })
        | inr missed ↦
            publish_or_fail-given _ _ v _ (rw (missed, handle) at h) (analyze-IsVerdictOf _)
      ]
