-- ===== src/Orchestrator/Saga.antt =====
-- services/orchestrator/internal/app and ports: the saga over its ports. `E` is the state of the
-- world outside: what the cache, the stages, the publisher and the clock read and change.
pub mod Quiet
pub mod Publishing
pub mod Masking
pub mod Outcome
pub mod Returned
use membrane_ai.Base.{
  Bool, ◌&&◌, not, Option, none, some, List, [], ◌∷◌, ◌++◌, Str, bytes, ◌==◌, if◌then◌else◌,
}
use membrane_ai.Base.Int.{ℤ, pos, is_pos}
pub use membrane_ai.Base.Context.{Context, background, with_timeout, without_cancel}
use membrane_ai.Errs.{GoError, nil, is_err, error_string, unavailable_err, Result, ok, err}
use membrane_ai.Orchestrator.Verdict.{
  Time, Submission, Finding, warning, Decision, needs_review, Source, pipeline, Verdict,
  stamp_source, strip_source, consolidate, cache_key,
}

pub record StageResult : Type 0 where
  pub findings : List Finding
  pub masked_diff : Str

pub record AnalysisStage (E : Type 0) : Type 0 where
  pub name : Str
  pub analyze : Context → Submission → E → StageResult × GoError × E

pub record VerdictCache (E : Type 0) : Type 0 where
  pub get : Context → Str → E → Verdict × Bool × GoError × E
  pub set : Context → Str → Verdict → E → GoError × E

pub record VerdictPublisher (E : Type 0) : Type 0 where
  pub publish : Context → Verdict → E → GoError × E

pub record Clock (E : Type 0) : Type 0 where
  pub now : E → Time × E

-- `optionalStage`
unfoldable pub optional : {E : Type 0} → AnalysisStage E → AnalysisStage E
optional inner = record {
  name = inner.name;
  analyze = λ ctx sub e.
      let (out, er, e') = inner.analyze ctx sub e in
      if is_err er
      then (
        record {
          findings =
              record {
                stage = inner.name;
                rule = bytes "stage-unavailable";
                severity = warning;
                message =
                    bytes "advisory stage failed; verdict produced without it: " ++ error_string er;
              }
              ∷ [];
          masked_diff = [];
        },
        nil,
        e',
      )
      else (out, nil, e');
}

pub record Options : Type 0 where
  pub stage_deadline : ℤ
  pub fallback_deadline : ℤ
  pub ruleset_version : Str

-- `Options.withDefaults`
unfoldable pub with_defaults : Options → Options
unfolding ◌==◌
with_defaults o = record {
  stage_deadline = if is_pos o.stage_deadline then o.stage_deadline else pos 1_200_000_000;
  fallback_deadline = if is_pos o.fallback_deadline then o.fallback_deadline else pos 200_000_000;
  ruleset_version = if o.ruleset_version == [] then bytes "v1" else o.ruleset_version;
}

pub record ProcessSubmission (E : Type 0) : Type 0 where
  pub cache : VerdictCache E
  pub stages : List (AnalysisStage E)
  pub fallback : AnalysisStage E
  pub publisher : VerdictPublisher E
  pub clock : Clock E
  pub opts : Options

unfoldable pub new_process_submission :
    {E : Type 0}
    → VerdictCache E
    → List (AnalysisStage E)
    → AnalysisStage E
    → VerdictPublisher E
    → Clock E
    → Options
    → ProcessSubmission E
new_process_submission cache stages fallback publisher clock opts = record {
  cache = cache;
  stages = stages;
  fallback = fallback;
  publisher = publisher;
  clock = clock;
  opts = with_defaults opts;
}

-- `if out.MaskedDiff != "" { current.Diff = out.MaskedDiff }`
unfoldable pub redact : Submission → Str → Submission
redact current [] = current
redact current (b ∷ masked) = record current { diff = b ∷ masked }

-- The loop of `analyze`: all findings, or `none` if a stage failed.
unfoldable pub run_stages :
    {E : Type 0}
    → Context
    → Submission
    → List Finding
    → List (AnalysisStage E)
    → E
    → Option (List Finding) × E
unfolding redact
run_stages ctx current findings [] e = (some findings, e)
run_stages ctx current findings (stage ∷ stages) e =
    let (out, er, e') = stage.analyze ctx current e in
    let rest =
      run_stages ctx (redact current out.masked_diff) (findings ++ out.findings) stages e' in
    if is_err er then (none, e') else rest

module _ {E : Type 0} (uc : ProcessSubmission E) (ctx : Context) (sub : Submission) where
  -- The `domain.Verdict{…}.StampSource(sub)` that both ways of analysis end in.
  unfoldable pub verdict_of : Decision → Source → List Finding → E → Verdict × E
  verdict_of decision source findings e =
      let (t, e') = uc.clock.now e in
      (
        stamp_source
            (record {
              submission_id = [];
              organization_id = [];
              decision = decision;
              source = source;
              ruleset_version = uc.opts.ruleset_version;
              findings = findings;
              evaluated_at = t;
              repository = [];
              commit_sha = [];
              pr_number = pos 0;
            })
            sub,
        e',
      )

  unfoldable pub run_fallback : E → Verdict × E
  run_fallback e =
      let fb_ctx = with_timeout (without_cancel ctx) uc.opts.fallback_deadline in
      let (out, er, e') = uc.fallback.analyze fb_ctx sub e in
      if is_err er
      then verdict_of needs_review Source.fallback
          (out.findings
            ++ record {
              stage = uc.fallback.name;
              rule = bytes "fallback-error";
              severity = warning;
              message = bytes "deterministic fallback failed; manual review required";
            }
              ∷ [])
          e'
      else verdict_of (consolidate out.findings) Source.fallback out.findings e'

  -- What `analyze` does with the outcome of its loop.
  unfoldable pub conclude : Option (List Finding) → E → Verdict × E
  conclude none e = run_fallback e
  conclude (some findings) e = verdict_of (consolidate findings) pipeline findings e

  unfoldable pub analyze : E → Verdict × E
  analyze e =
      let (outcome, e') = run_stages (with_timeout ctx uc.opts.stage_deadline) sub [] uc.stages e in
      conclude outcome e'

  abbrev op_process : Str
  op_process = bytes "orchestrator.app.ProcessSubmission"

  -- `uc.publisher.Publish(ctx, verdict)` and the return that follows it.
  unfoldable pub publish_or_fail : Str → Verdict → E → Result Verdict × E
  publish_or_fail msg verdict e =
      let (er, e') = uc.publisher.publish ctx verdict e in
      (if is_err er then err (unavailable_err op_process msg er) else ok verdict, e')

  -- The best-effort cache write of a pipeline verdict.
  unfoldable pub remember : Str → Verdict → Source → E → E
  remember key verdict pipeline e = (uc.cache.set ctx key (strip_source verdict) e).1
  remember key verdict _ e = e

  -- `Handle` after a cache miss.
  unfoldable pub handle_miss : Str → E → Result Verdict × E
  handle_miss key e =
      let (verdict, e') = analyze e in
      publish_or_fail (bytes "publish verdict") verdict (remember key verdict verdict.source e')

  -- `Handle` on a cache hit.
  unfoldable pub handle_hit : Verdict → E → Result Verdict × E
  handle_hit cached e =
      publish_or_fail (bytes "publish cached verdict")
        (record (stamp_source cached sub) { source = Source.cache }) e

  -- `ProcessSubmission.Handle`
  unfoldable pub handle : (Str → Str) → E → Result Verdict × E
  handle blake3 e =
      let key = cache_key blake3 sub.diff uc.opts.ruleset_version in
      let (cached, hit, er, e') = uc.cache.get ctx key e in
      if not (is_err er) && hit then handle_hit cached e' else handle_miss key e'
