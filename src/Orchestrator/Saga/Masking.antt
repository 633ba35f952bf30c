-- ===== src/Orchestrator/Saga/Masking.antt =====
-- What later stages can learn of a diff that an earlier stage has masked (decision D-024), and
-- what becomes of the findings of required stages when an advisory stage fails.
use membrane_ai.Base.{
  ◌≡◌, ◌≢◌, refl, sym, ap, ◌∙◌, false, Option, none, some, List, [], ◌∷◌, ◌++◌, map, Str, arith,
  inl, inr, Bool-cases,
}
use mathlib.Core.List.{append_assoc, append-nil}
use mathlib.Core.Path.{subst}
use membrane_ai.Errs.{is_err}
use membrane_ai.Orchestrator.Verdict.{
  Submission, Finding, Source, pipeline, stamp_source, consolidate,
}
use membrane_ai.Orchestrator.Verdict.Decisions.{worse, consolidate-append}
use membrane_ai.Orchestrator.Saga.{
  Context, with_timeout, AnalysisStage, ProcessSubmission, optional, run_stages, redact, verdict_of,
  run_fallback, conclude, analyze,
}

-- The same submission with another diff.
abbrev pub with_diff : Submission → Str → Submission
with_diff sub d = record sub { diff = d }

redact-with_diff :
    (sub : Submission) (d masked : Str)
    → masked ≢ []
    → redact (with_diff sub d) masked ≡ redact sub masked
unfolding redact
redact-with_diff sub d [] h = absurd (h refl)
redact-with_diff sub d (b ∷ masked) h = refl

-- Once a stage has answered alike for two diffs, with a mask, the rest of the chain cannot tell
-- them apart.
run_stages-masked :
    {E : Type 0} (ctx : Context) (sub : Submission) (d : Str) (findings : List Finding)
    (masker : AnalysisStage E) (later : List (AnalysisStage E)) (e : E)
    → masker.analyze ctx (with_diff sub d) e ≡ masker.analyze ctx sub e
    → (masker.analyze ctx sub e).0.masked_diff ≢ []
    → run_stages ctx (with_diff sub d) findings (masker ∷ later) e
      ≡ run_stages ctx sub findings (masker ∷ later) e
unfolding run_stages
run_stages-masked ctx sub d findings masker later e same masks =
    rw (same, redact-with_diff sub d _ masks)

fallback-source :
    {E : Type 0} (uc : ProcessSubmission E) (ctx : Context) (sub : Submission) (e : E)
    → (run_fallback uc ctx sub e).0.source ≡ Source.fallback
unfolding run_fallback verdict_of stamp_source
fallback-source uc ctx sub e = ground arith

conclude-masked :
    {E : Type 0} (uc : ProcessSubmission E) (ctx : Context) (sub : Submission) (d : Str)
    (outcome : Option (List Finding)) (e : E)
    → (conclude uc ctx sub outcome e).0.source ≡ pipeline
    → conclude uc ctx (with_diff sub d) outcome e ≡ conclude uc ctx sub outcome e
unfolding conclude verdict_of stamp_source
conclude-masked uc ctx sub d none e h = absurd (cc (fallback-source uc ctx sub e))
conclude-masked uc ctx sub d (some findings) e h = refl

-- The masking guarantee. Take two submissions that differ only in the diff, and a first stage that
-- answers both alike and masks the diff. Where the stages succeed, the verdict and the effects of
-- all later stages are the same for both: nothing of what the mask hides reaches them.
pub analyze-masked :
    {E : Type 0} (uc : ProcessSubmission E) (ctx : Context) (sub : Submission) (d : Str)
    (masker : AnalysisStage E) (later : List (AnalysisStage E)) (e : E)
    → uc.stages ≡ masker ∷ later
    → masker.analyze (with_timeout ctx uc.opts.stage_deadline) (with_diff sub d) e
      ≡ masker.analyze (with_timeout ctx uc.opts.stage_deadline) sub e
    → (masker.analyze (with_timeout ctx uc.opts.stage_deadline) sub e).0.masked_diff ≢ []
    → (analyze uc ctx sub e).0.source ≡ pipeline
    → analyze uc ctx (with_diff sub d) e ≡ analyze uc ctx sub e
unfolding analyze
analyze-masked uc ctx sub d masker later e chain same masks pipelined =
    let stage_ctx = with_timeout ctx uc.opts.stage_deadline in
    let alike =
      subst (λ l. run_stages stage_ctx (with_diff sub d) [] l e ≡ run_stages stage_ctx sub [] l e)
        (sym chain) (run_stages-masked stage_ctx sub d [] masker later e same masks) in
    ap (λ r. conclude uc ctx (with_diff sub d) r.0 r.1) alike
    ∙ conclude-masked uc ctx sub d _ _ pipelined

run_stages-cons :
    {E : Type 0} (ctx : Context) (current : Submission) (findings : List Finding)
    (s : AnalysisStage E) (stages : List (AnalysisStage E)) (e : E)
    → is_err (s.analyze ctx current e).1 ≡ false
    → run_stages ctx current findings (s ∷ stages) e
      ≡ run_stages ctx
          (redact current (s.analyze ctx current e).0.masked_diff)
          (findings ++ (s.analyze ctx current e).0.findings)
          stages
          (s.analyze ctx current e).2
unfolding run_stages
run_stages-cons ctx current findings s stages e passed = rw passed

optional_never_fails :
    {E : Type 0} (s : AnalysisStage E) (ctx : Context) (current : Submission) (e : E)
    → is_err ((optional s).analyze ctx current e).1 ≡ false
unfolding optional
optional_never_fails s ctx current e = ground arith

-- A chain that succeeds from any state, and adds findings for which `P` holds.
abbrev pub Adds : {E : Type 0} → Context → List (AnalysisStage E) → (List Finding → Type 0) → Type 0
Adds {E} ctx stages P =
    (current : Submission) (findings : List Finding) (e : E)
    → (more : List Finding) × (e' : E) × P more
      × (run_stages ctx current findings stages e ≡ (some (findings ++ more), e'))

-- Advisory stages never make the chain fail.
Adds-optional :
    {E : Type 0} (ctx : Context) (advisory : List (AnalysisStage E))
    → Adds ctx (map optional advisory) (λ _. Unit)
Adds-optional ctx [] current findings e = ([], e, tt, unfold run_stages in rw append-nil)
Adds-optional ctx (s ∷ advisory) current findings e =
    let (out, er, e1) = (optional s).analyze ctx current e in
    let (more, e', _, ran) =
      Adds-optional ctx advisory (redact current out.masked_diff) (findings ++ out.findings) e1 in
    (
      out.findings ++ more,
      e',
      tt,
      run_stages-cons ctx current findings (optional s) (map optional advisory) e
            (optional_never_fails s ctx current e)
          ∙ ran
          ∙ ap (λ l. (some l, e')) (append_assoc findings out.findings more),
    )

pub run_stages-required :
    {E : Type 0} (ctx : Context) (current : Submission) (findings all : List Finding)
    (required later : List (AnalysisStage E)) (P : List Finding → Type 0) (e e1 : E)
    → Adds ctx later P
    → run_stages ctx current findings required e ≡ (some all, e1)
    → (more : List Finding) × (e' : E) × P more
      × (run_stages ctx current findings (required ++ later) e ≡ (some (all ++ more), e'))
run_stages-required ctx current findings all [] later P e e1 adds h =
    let (more, e', holds, ran) = adds current findings e in
    (more, e', holds, ran ∙ unfold run_stages in cc h)
run_stages-required ctx current findings all (s ∷ required) later P e e1 adds h =
    let (out, er, e2) = s.analyze ctx current e in
    elim (Bool-cases (is_err er)) [
      | inl failed ↦ absurd (unfold run_stages in cc (rw (failed, run_stages) at h))
      | inr passed ↦
          let (more, e', holds, ran) =
            run_stages-required ctx (redact current out.masked_diff) (findings ++ out.findings) all
              required later P e2 e1 adds
              (sym (run_stages-cons ctx current findings s required e passed) ∙ h) in
          (
            more,
            e',
            holds,
            run_stages-cons ctx current findings s (required ++ later) e passed ∙ ran,
          )
    ]

module _ {E : Type 0} (uc : ProcessSubmission E) (ctx : Context) (sub : Submission)
    (findings : List Finding) (e : E) where
  concluded-source : (conclude uc ctx sub (some findings) e).0.source ≡ pipeline
  unfolding conclude verdict_of stamp_source
  concluded-source = refl

  concluded-findings : (conclude uc ctx sub (some findings) e).0.findings ≡ findings
  unfolding conclude verdict_of stamp_source
  concluded-findings = refl

  concluded-decision : (conclude uc ctx sub (some findings) e).0.decision ≡ consolidate findings
  unfolding conclude verdict_of stamp_source
  concluded-decision = refl

-- The verdict of a chain of required stages that succeed and later stages that only add findings.
pub analyze-required :
    {E : Type 0} (uc : ProcessSubmission E) (ctx : Context) (sub : Submission)
    (found : List Finding) (required later : List (AnalysisStage E)) (P : List Finding → Type 0)
    (e e1 : E)
    → uc.stages ≡ required ++ later
    → Adds (with_timeout ctx uc.opts.stage_deadline) later P
    → run_stages (with_timeout ctx uc.opts.stage_deadline) sub [] required e ≡ (some found, e1)
    → (more : List Finding) × P more
      × ((analyze uc ctx sub e).0.source ≡ pipeline)
      × ((analyze uc ctx sub e).0.findings ≡ found ++ more)
      × ((analyze uc ctx sub e).0.decision ≡ worse (consolidate found) (consolidate more))
unfolding analyze
analyze-required {E} uc ctx sub found required later P e e1 chain adds ran =
    let stage_ctx = with_timeout ctx uc.opts.stage_deadline in
    let (more, e', holds, all_ran) =
      run_stages-required stage_ctx sub [] found required later P e e1 adds ran in
    let same : run_stages stage_ctx sub [] uc.stages e ≡ (some (found ++ more), e') =
      ap (λ l. run_stages stage_ctx sub [] l e) chain ∙ all_ran in
    let at_end = λ (r : Option (List Finding) × E). (conclude uc ctx sub r.0 r.1).0 in
    (
      more,
      holds,
      ap (λ r. (at_end r).source) same ∙ concluded-source uc ctx sub (found ++ more) e',
      ap (λ r. (at_end r).findings) same ∙ concluded-findings uc ctx sub (found ++ more) e',
      ap (λ r. (at_end r).decision) same
          ∙ concluded-decision uc ctx sub (found ++ more) e'
          ∙ consolidate-append found more,
    )

-- Where the required stages all succeed, the advisory stages that follow never cause a fallback,
-- whatever they do: the verdict holds every finding of the required stages, and its decision is the
-- graver of the one on these and the one on what the advisory stages add.
pub advisory_keeps_findings :
    {E : Type 0} (uc : ProcessSubmission E) (ctx : Context) (sub : Submission)
    (found : List Finding) (required advisory : List (AnalysisStage E)) (e e1 : E)
    → uc.stages ≡ required ++ map optional advisory
    → run_stages (with_timeout ctx uc.opts.stage_deadline) sub [] required e ≡ (some found, e1)
    → (more : List Finding) × ((analyze uc ctx sub e).0.source ≡ pipeline)
      × ((analyze uc ctx sub e).0.findings ≡ found ++ more)
      × ((analyze uc ctx sub e).0.decision ≡ worse (consolidate found) (consolidate more))
advisory_keeps_findings uc ctx sub found required advisory e e1 chain ran =
    let (more, _, source, findings, decision) =
      analyze-required uc ctx sub found required (map optional advisory) (λ _. Unit) e e1 chain
        (Adds-optional _ advisory) ran in
    (more, source, findings, decision)
