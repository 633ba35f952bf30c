-- ===== src/Orchestrator/Memory/Outage.antt =====
-- An advisory stage that is down: the verdict made without it is cached like any other.
use membrane_ai.Base.{
  ◌≡◌, ◌≢◌, sym, ap, ◌∙◌, true, none, some, List, [], ◌∷◌, ◌++◌, Str, arith, any, map,
}
use mathlib.Core.List.{map-append}
use membrane_ai.Base.Maps.{lookup}
use membrane_ai.Errs.{is_err, ok}
use membrane_ai.Orchestrator.Verdict.{
  Submission, Finding, Decision, approved, is_warning, consolidate,
}
use membrane_ai.Orchestrator.Verdict.Decisions.{worse, consolidate-eq-decision_of}
use membrane_ai.Orchestrator.Saga.{
  Context, AnalysisStage, Clock, Options, optional, run_stages, analyze, handle, with_defaults,
  with_timeout, new_process_submission,
}
use membrane_ai.Orchestrator.Saga.Masking.{Adds, analyze-required}
use membrane_ai.Orchestrator.Memory.{Memory, in_memory, lift_stage}
use membrane_ai.Orchestrator.Memory.Replay.{key_for, replayed, handle_replays}

-- Every call of the stage fails.
abbrev pub IsDown : {W : Type 0} → AnalysisStage W → Type 0
IsDown {W} s = (ctx : Context) (sub : Submission) (w : W) → is_err (s.analyze ctx sub w).1 ≡ true

HasWarning : List Finding → Type 0
HasWarning fs = any (λ f. is_warning f.severity) fs ≡ true

Adds-down :
    {W : Type 0} (ctx : Context) (s : AnalysisStage W)
    → IsDown s
    → Adds ctx (lift_stage (optional s) ∷ []) HasWarning
unfolding HasWarning run_stages lift_stage optional
Adds-down ctx s down current findings m =
    let (out, _, m') = (lift_stage (optional s)).analyze ctx current m in
    let fails = down ctx current m.outside in (out.findings, m', rw fails, rw fails)

worse-warning :
    (d : Decision) (fs : List Finding) → HasWarning fs → worse d (consolidate fs) ≢ approved
unfolding HasWarning
worse-warning d fs h = ground (arith, consolidate-eq-decision_of fs)

-- While the last, advisory stage is down, the required stages succeed and nothing is cached for the
-- diff, the verdict is one of the pipeline and not approved, so it is stored. Any later submission
-- of this diff gets that decision from the cache, whatever its stages would say by then.
pub outage_is_replayed :
    {W : Type 0} (required stages' : List (AnalysisStage W))
    (s fallback fallback' : AnalysisStage W) (clock clock' : Clock W) (opts : Options)
    (blake3 : Str → Str) (ctx ctx' : Context) (sub sub' : Submission) (found : List Finding)
    (m m' : Memory W)
    → IsDown s
    → run_stages
        (with_timeout ctx (with_defaults opts).stage_deadline)
        sub
        []
        (map lift_stage required)
        m
      ≡ (some found, m')
    → lookup (key_for blake3 opts sub) m.store ≡ none
    → sub'.diff ≡ sub.diff
    → let v = (analyze (in_memory (required ++ optional s ∷ []) fallback clock opts) ctx sub m).0 in
      let m1 =
        (handle (in_memory (required ++ optional s ∷ []) fallback clock opts) ctx sub blake3 m).1 in
      (v.decision ≢ approved)
      × ((handle (in_memory stages' fallback' clock' opts) ctx' sub' blake3 m1).0
          ≡ ok (replayed v sub'))
unfolding in_memory new_process_submission
outage_is_replayed required stages' s fallback fallback' clock clock' opts blake3 ctx ctx' sub sub'
      found m m' down ran missed same_diff =
    let uc = in_memory (required ++ optional s ∷ []) fallback clock opts in
    let (more, warns, source, _, decision) =
      analyze-required uc ctx sub found (map lift_stage required) (lift_stage (optional s) ∷ [])
        HasWarning m m' (map-append _ _ _) (Adds-down _ s down) ran in
    (
      λ e. worse-warning (consolidate found) more warns (sym decision ∙ e),
      ap (λ r. r.0)
          (handle_replays (required ++ optional s ∷ []) stages' fallback fallback' clock clock' opts
            blake3 ctx ctx' sub sub' m missed source same_diff),
    )
