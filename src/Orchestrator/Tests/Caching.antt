-- ===== src/Orchestrator/Tests/Caching.antt =====
-- The theorems on the verdict cache at concrete submissions.
use membrane_ai.Base.{ℕ, ◌≡◌, ◌≢◌, refl, [], ◌∷◌, ◌++◌}
use membrane_ai.Errs.{ok}
use membrane_ai.Orchestrator.Verdict.{approved}
use membrane_ai.Orchestrator.Saga.{background, analyze, handle, optional}
use membrane_ai.Orchestrator.Memory.{Memory, in_memory}
use membrane_ai.Orchestrator.Memory.Replay.{replayed, handle_replays}
use membrane_ai.Orchestrator.Memory.Outage.{outage_is_replayed}
use membrane_ai.Orchestrator.Tests.{
  run, analyzer, down, semantic, counter, digest, opts, first, second, empty_memory, chain, saga,
}

abbrev after_first : Memory ℕ
after_first = (handle saga background first digest empty_memory).1

-- The second submission hits the cache; its saga has no stage at all.
handle_replays_example :
    let v = (analyze saga background first empty_memory).0 in
    handle (in_memory [] analyzer counter opts) background second digest after_first ≡ (
      ok (replayed v second),
      record after_first { verdicts = after_first.verdicts ++ replayed v second ∷ [] },
    )
unfolding run
handle_replays_example =
    handle_replays chain [] analyzer analyzer counter counter opts digest background background
      first second empty_memory refl refl refl

outage_is_replayed_example :
    let broken = in_memory (optional down ∷ []) analyzer counter opts in
    let v = (analyze broken background first empty_memory).0 in
    let m1 = (handle broken background first digest empty_memory).1 in
    (v.decision ≢ approved)
    × ((handle
          (in_memory (optional semantic ∷ []) analyzer counter opts)
          background
          second
          digest
          m1).0
        ≡ ok (replayed v second))
unfolding run
outage_is_replayed_example =
    outage_is_replayed [] (optional semantic ∷ []) down analyzer analyzer counter counter opts
      digest background background first second [] empty_memory empty_memory (λ ctx sub w. refl)
      refl refl refl
