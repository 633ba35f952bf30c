-- ===== src/Reporter/Consumer/Reported.antt =====
-- From the verdict of the orchestrator to the report.
use membrane_ai.Base.{
  ◌≡◌, ◌≢◌, ◌↔◌, refl, ◌∙◌, ap, true, false, List, some, Str, ◌++◌, bytes, is_blank, arith,
}
use membrane_ai.Base.Context.{Context}
use membrane_ai.Base.Int.{ℤ}
use membrane_ai.Errs.{is_err, ok}
use membrane_ai.Orchestrator.Verdict
use membrane_ai.Orchestrator.Verdict.{
  Submission, Decision, approved, needs_review, rejected, Source, cache_key, stamp_source,
}
use membrane_ai.Orchestrator.Saga.{
  ProcessSubmission, AnalysisStage, VerdictPublisher, Clock, Options, new_process_submission,
  with_defaults, handle, handle_hit, publish_or_fail,
}
use membrane_ai.Orchestrator.Saga.Returned.{IsDecision, handle-IsVerdictOf}
use membrane_ai.Orchestrator.RedisCache.{RedisLib, key_prefix, redis_get, redis_cache}
use membrane_ai.Orchestrator.Codec.{decision_string, verdict_v1}
use membrane_ai.Reporter.Report.{Mode, shadow, Report, success, failure, new_report}
use membrane_ai.Reporter.Report.Outcomes.{
  IsKnown, new_report_iff, new_report-IsReportOf, approved-rejected, approved-needs_review,
  rejected-needs_review,
}
use membrane_ai.Reporter.Consumer.{verdict_of}

decision_string-IsKnown : (d : Decision) → IsDecision d → IsKnown (decision_string d)
unfolding decision_string
decision_string-IsKnown d is = ground (arith, is)

decision_string-approved :
    (d : Decision) → IsDecision d → (decision_string d ≡ bytes "approved") ↔ (d ≡ approved)
unfolding decision_string
decision_string-approved d is =
    ground (arith, is, approved-rejected, approved-needs_review, rejected-needs_review)

decision_string-rejected :
    (d : Decision) → IsDecision d → (decision_string d ≡ bytes "rejected") ↔ (d ≡ rejected)
unfolding decision_string
decision_string-rejected d is =
    ground (arith, is, approved-rejected, approved-needs_review, rejected-needs_review)

-- The verdict that the reporter makes of the envelope of `v`.
abbrev pub received : Verdict.Verdict → membrane_ai.Reporter.Report.Verdict
received v = verdict_of (verdict_v1 v)

module _ {E : Type 0} (uc : ProcessSubmission E) (ctx : Context) (sub : Submission)
    (blake3 : Str → Str) where
  -- Let `Handle` return a verdict on a submission that has an id, where an entry that the cache finds
  -- has one of the three decisions. The envelope of this verdict makes a report under every mode, on
  -- the commit of the submission. The report is a success exactly if the decision is approved, and a
  -- failure, which blocks the merge, exactly if it is rejected and the mode is not shadow.
  pub verdict_reported :
      (e : E) (v : Verdict.Verdict) (mode : Mode)
      → is_blank sub.submission_id ≡ false
      → ((uc.cache.get ctx (cache_key blake3 sub.diff uc.opts.ruleset_version) e).1 ≡ true
          → IsDecision
              (uc.cache.get ctx (cache_key blake3 sub.diff uc.opts.ruleset_version) e).0.decision)
      → (handle uc ctx sub blake3 e).0 ≡ ok v
      → (r : Report) × (new_report (received v) mode ≡ ok r)
        × (r.submission_id ≡ sub.submission_id)
        × (r.commit_sha ≡ sub.commit_sha)
        × ((r.outcome ≡ success) ↔ (v.decision ≡ approved))
        × ((r.outcome ≡ failure) ↔ ((v.decision ≡ rejected) × (mode ≢ shadow)))
  unfolding verdict_of verdict_v1
  verdict_reported e v mode named known returned =
      let of = handle-IsVerdictOf uc ctx sub blake3 e v known returned in
      let filled : is_blank v.submission_id ≡ false = ap is_blank of.submission_id ∙ named in
      let (r, made) =
        (new_report_iff (received v) mode).1
          (filled, decision_string-IsKnown v.decision of.decision) in
      let is = new_report-IsReportOf (received v) mode r made in
      let (a, a') = decision_string-approved v.decision of.decision in
      let (b, b') = decision_string-rejected v.decision of.decision in
      (
        r,
        made,
        is.submission_id ∙ of.submission_id,
        is.commit_sha ∙ of.commit_sha,
        ((λ e. a (is.passes.0 e)), (λ e. is.passes.1 (a' e))),
        ((λ e. let (d, m) = is.blocks.0 e in (b d, m)), (λ (d, m). is.blocks.1 (b' d, m))),
      )

module _ {E : Type 0} (lib : RedisLib E) (ttl : ℤ) (stages : List (AnalysisStage E))
    (fallback : AnalysisStage E) (publisher : VerdictPublisher E) (clock : Clock E) (opts : Options)
    (ctx : Context) (sub : Submission) (blake3 : Str → Str) where
  -- Where Redis holds, for the diff, a payload that decodes to a verdict whose decision is none of
  -- the three, and the publisher takes what it is given, `Handle` returns a verdict on the submission
  -- without an error, and the envelope of this verdict makes no report, under any mode.
  pub unknown_entry_unreported :
      (e : E) (raw : Str) (cached : Verdict.Verdict)
      → (lib.get ctx
          (key_prefix ++ cache_key blake3 sub.diff (with_defaults opts).ruleset_version)
          e).0
        ≡ ok (some raw)
      → lib.unmarshal raw ≡ ok cached
      → ¬ IsKnown (decision_string cached.decision)
      → ((v : Verdict.Verdict) (e : E) → is_err (publisher.publish ctx v e).0 ≡ false)
      → (v : Verdict.Verdict) × ((handle
            (new_process_submission (redis_cache lib ttl) stages fallback publisher clock opts)
            ctx
            sub
            blake3
            e).0
          ≡ ok v)
        × (v.submission_id ≡ sub.submission_id)
        × ((mode : Mode) (r : Report) → new_report (received v) mode ≢ ok r)
  unfolding handle handle_hit publish_or_fail new_process_submission redis_cache redis_get
      stamp_source verdict_of verdict_v1
  unknown_entry_unreported e raw cached got decoded unknown accepts =
      let v : Verdict.Verdict = record (stamp_source cached sub) { source = Source.cache } in
      (
        v,
        rw (got, decoded, accepts) refl,
        refl,
        λ mode r made. unknown ((new_report_iff (received v) mode).0 (r, made)).1,
      )
