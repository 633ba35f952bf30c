-- ===== src/Assurance/Tests/Releases.antt =====
-- The theorems on statuses, gate and evidence at concrete releases.
use membrane_ai.Base.{◌≡◌, refl, inl, [], bytes, arith}
use membrane_ai.Base.Int.{pos}
use membrane_ai.Errs.{ok}
use membrane_ai.Assurance.Status.{GateDecision, pass}
use membrane_ai.Assurance.Status.Mapping.{IsCleanRun}
use membrane_ai.Assurance.Contract.{ReleaseEvidence}
use membrane_ai.Assurance.Build.{with_status, build_release_evidence}
use membrane_ai.Assurance.Build.FailSafe.{IsComplete, code_error_passes}
use membrane_ai.Assurance.Tests.{run, counts, input}

complete : IsComplete (input (bytes "rel-1") GateDecision.error (pos 0))
unfolding run
complete = record {
  correlated = record { version = refl; filled = ground arith; sha = refl };
  known_verdict = refl;
  evaluated = ground arith;
  selected = λ e. cc;
}

clean : IsCleanRun (with_status (counts (pos 0)) (bytes " completed"))
unfolding run
clean = record {
  finished = refl;
  none_errored = refl;
  none_incomplete = refl;
  none_critical = refl;
  none_regressed = refl;
}

code_error_passes_example :
    (ev : ReleaseEvidence) × (build_release_evidence
        (pos 1)
        (input (bytes "rel-1") GateDecision.error (pos 0))
      ≡ ok ev)
    × (ev.gate_decision ≡ pass)
    × (ev.triggered_rules ≡ [])
code_error_passes_example =
    code_error_passes (pos 1) (input (bytes "rel-1") GateDecision.error (pos 0)) refl complete clean
      (inl refl)
