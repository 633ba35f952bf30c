-- ===== src/Orchestrator/Memory.antt =====
-- services/orchestrator/internal/adapters/memorycache and memorypublisher, and the saga over them.
-- `W` is the state of the world beyond the two: what the stages and the clock read and change.
pub mod Replay
pub mod Stored
pub mod Outage
use membrane_ai.Base.{Bool, true, false, Option, none, some, List, [], ◌∷◌, ◌++◌, Str, map}
use membrane_ai.Base.Int.{pos}
use membrane_ai.Base.Maps.{lookup, insert}
use membrane_ai.Errs.{GoError, nil}
use membrane_ai.Orchestrator.Verdict.{Submission, Verdict, Decision, Source, Time}
use membrane_ai.Orchestrator.Saga.{
  Context, StageResult, AnalysisStage, VerdictCache, VerdictPublisher, Clock, Options,
  ProcessSubmission, new_process_submission,
}

pub record Memory (W : Type 0) : Type 0 where
  pub store : List (Str × Verdict)
  pub verdicts : List Verdict
  pub outside : W

-- The zero `domain.Verdict` that a missing map key gives.
abbrev pub zero_verdict : Verdict
zero_verdict = record {
  submission_id = [];
  organization_id = [];
  decision = Decision.other [];
  source = Source.other [];
  ruleset_version = [];
  findings = [];
  evaluated_at = pos 0;
  repository = [];
  commit_sha = [];
  pr_number = pos 0;
}

abbrev found_or : Option Verdict → Verdict × Bool
found_or none = (zero_verdict, false)
found_or (some v) = (v, true)

module _ {W : Type 0} where
  -- `memorycache.Cache.Get` and `Set`
  unfoldable pub cache_get : Context → Str → Memory W → Verdict × Bool × GoError × Memory W
  cache_get ctx key m = let (v, hit) = found_or (lookup key m.store) in (v, hit, nil, m)

  unfoldable pub cache_set : Context → Str → Verdict → Memory W → GoError × Memory W
  cache_set ctx key v m = (nil, record m { store = insert key v m.store })

  -- `memorypublisher.Publisher.Publish`
  unfoldable pub publish : Context → Verdict → Memory W → GoError × Memory W
  publish ctx v m = (nil, record m { verdicts = m.verdicts ++ v ∷ [] })

  -- A stage and a clock of the world outside leave the cache and the published verdicts alone.
  unfoldable pub lift_stage : AnalysisStage W → AnalysisStage (Memory W)
  lift_stage s = record {
    name = s.name;
    analyze = λ ctx sub m.
        let (out, er, w) = s.analyze ctx sub m.outside in (out, er, record m { outside = w });
  }

  unfoldable pub lift_clock : Clock W → Clock (Memory W)
  lift_clock c = record { now = λ m. let (t, w) = c.now m.outside in (t, record m { outside = w }) }

  -- The in-memory wiring of the saga.
  unfoldable pub in_memory :
      List (AnalysisStage W) → AnalysisStage W → Clock W → Options → ProcessSubmission (Memory W)
  in_memory stages fallback clock opts =
      new_process_submission (record { get = cache_get; set = cache_set }) (map lift_stage stages)
        (lift_stage fallback) (record { publish = publish }) (lift_clock clock) opts
