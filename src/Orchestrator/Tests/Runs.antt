-- ===== src/Orchestrator/Tests/Runs.antt =====
-- The saga's theorems at concrete runs.
use membrane_ai.Base.{ℕ, ◌≡◌, refl, [], ◌∷◌, List, map, bytes}
use membrane_ai.Errs.{GoError, err, ok, plain, unavailable_err}
use membrane_ai.Orchestrator.Verdict.{Verdict, pipeline, Finding, consolidate}
use membrane_ai.Orchestrator.Verdict.Decisions.{worse}
use membrane_ai.Orchestrator.Saga.{background, ProcessSubmission, analyze, handle, optional}
use membrane_ai.Orchestrator.Saga.Publishing.{IsStamped, handle-publishes}
use membrane_ai.Orchestrator.Saga.Masking.{with_diff, analyze-masked, advisory_keeps_findings}
use membrane_ai.Orchestrator.Saga.Outcome.{handle-returns}
use membrane_ai.Orchestrator.Memory.{Memory, lift_stage}
use membrane_ai.Orchestrator.Memory.Stored.{in_memory-Journal}
use membrane_ai.Orchestrator.Tests.{
  run, leak, analyzer, down, semantic, counter, digest, opts, first, empty_memory, chain, saga,
  first_verdict, first_run,
}

handle-publishes_example :
    IsStamped first_verdict first
    × ((handle saga background first digest empty_memory).1.verdicts ≡ first_verdict ∷ [])
handle-publishes_example =
    handle-publishes (in_memory-Journal chain analyzer counter opts) background first digest
      first_verdict empty_memory first_run

-- The semantic stage repeats its input, and yet the two secrets give one verdict.
analyze-masked_example :
    analyze saga background (with_diff first (bytes "+other")) empty_memory
    ≡ analyze saga background first empty_memory
unfolding run
analyze-masked_example =
    analyze-masked saga background first (bytes "+other") (lift_stage analyzer)
      (lift_stage (optional semantic) ∷ []) empty_memory refl refl (λ e. cc) refl

-- The analyzer is required; the advisory stage is down.
abbrev degraded : ProcessSubmission (Memory ℕ)
degraded = record saga { stages = lift_stage analyzer ∷ map optional (lift_stage down ∷ []) }

advisory_keeps_findings_example :
    let v = (analyze degraded background first empty_memory).0 in
    (more : List Finding) × (v.source ≡ pipeline)
    × (v.findings ≡ leak ∷ more)
    × (v.decision ≡ worse (consolidate (leak ∷ [])) (consolidate more))
unfolding run
advisory_keeps_findings_example =
    advisory_keeps_findings degraded background first (leak ∷ []) (lift_stage analyzer ∷ [])
      (lift_stage down ∷ []) empty_memory (record empty_memory { outside = 1 }) refl refl

handle-returns_example :
    (v : Verdict) × ((handle saga background first digest empty_memory).0 ≡ ok v)
unfolding run
handle-returns_example = handle-returns saga background first digest empty_memory (λ v e. refl)

-- A bus that is down.
abbrev broken : ProcessSubmission (Memory ℕ)
broken = record saga { publisher = record { publish = λ ctx v m. (plain (bytes "broker"), m) } }

abbrev broken_error : GoError
broken_error =
    unavailable_err (bytes "orchestrator.app.ProcessSubmission") (bytes "publish verdict")
      (plain (bytes "broker"))

broken_run : (handle broken background first digest empty_memory).0 ≡ err broken_error
unfolding run
broken_run = refl
