-- ===== src/Orchestrator/Saga/Quiet.antt =====
-- What analysis leaves alone: a part of the world that the stages, the fallback and the clock do
-- not touch is the same after `analyze`.
use membrane_ai.Base.{
  ◌≡◌, refl, ◌∙◌, Option, none, some, List, [], ◌∷◌, ◌++◌, All, arith, inl, inr, Bool-cases,
}
use membrane_ai.Errs.{is_err}
use membrane_ai.Orchestrator.Verdict.{Submission, Finding, Decision, Source}
use membrane_ai.Orchestrator.Saga.{
  Context, with_timeout, without_cancel, AnalysisStage, ProcessSubmission, run_stages, redact,
  verdict_of, run_fallback, conclude, analyze,
}

module _ {E O : Type 0} (observe : E → O) where
  abbrev pub StageIsQuiet : AnalysisStage E → Type 0
  StageIsQuiet s =
      (ctx : Context) (sub : Submission) (e : E) → observe (s.analyze ctx sub e).2 ≡ observe e

  pub record IsQuiet (uc : ProcessSubmission E) : Type 0 where
    pub now_quiet : (e : E) → observe (uc.clock.now e).1 ≡ observe e
    pub stages_quiet : All StageIsQuiet uc.stages
    pub fallback_quiet : StageIsQuiet uc.fallback

  run_stages-quiet :
      (ctx : Context) (current : Submission) (findings : List Finding)
      (stages : List (AnalysisStage E)) (e : E)
      → All StageIsQuiet stages
      → observe (run_stages ctx current findings stages e).1 ≡ observe e
  unfolding run_stages
  run_stages-quiet ctx current findings [] e h = refl
  run_stages-quiet ctx current findings (s ∷ stages) e (q, h) = ground (
    arith,
    q ctx current e,
    run_stages-quiet ctx (redact current (s.analyze ctx current e).0.masked_diff)
        (findings ++ (s.analyze ctx current e).0.findings) stages (s.analyze ctx current e).2 h,
  )

  module _ (uc : ProcessSubmission E) (quiet : IsQuiet uc) (ctx : Context) (sub : Submission) where
    verdict_of-quiet :
        (d : Decision) (s : Source) (fs : List Finding) (e : E)
        → observe (verdict_of uc ctx sub d s fs e).1 ≡ observe e
    unfolding verdict_of
    verdict_of-quiet d s fs e = quiet.now_quiet e

    run_fallback-quiet : (e : E) → observe (run_fallback uc ctx sub e).1 ≡ observe e
    unfolding run_fallback
    run_fallback-quiet e =
        let fb_ctx = with_timeout (without_cancel ctx) uc.opts.fallback_deadline in
        elim (Bool-cases (is_err (uc.fallback.analyze fb_ctx sub e).1)) [
          | inl failed ↦ rw failed (verdict_of-quiet _ _ _ _ ∙ quiet.fallback_quiet fb_ctx sub e)
          | inr passed ↦ rw passed (verdict_of-quiet _ _ _ _ ∙ quiet.fallback_quiet fb_ctx sub e)
        ]

    conclude-quiet :
        (outcome : Option (List Finding)) (e : E)
        → observe (conclude uc ctx sub outcome e).1 ≡ observe e
    unfolding conclude
    conclude-quiet none e = run_fallback-quiet e
    conclude-quiet (some findings) e = verdict_of-quiet _ _ _ e

    pub analyze-quiet : (e : E) → observe (analyze uc ctx sub e).1 ≡ observe e
    unfolding analyze
    analyze-quiet e = conclude-quiet _ _ ∙ run_stages-quiet _ sub [] uc.stages e quiet.stages_quiet
