-- ===== src/Orchestrator/Tests/Verdicts.antt =====
-- The theorems on decisions and cache keys, at concrete findings and changes.
use membrane_ai.Base.{◌≡◌, [], ◌∷◌, bytes}
use membrane_ai.Orchestrator.Verdict.{Finding, warning, rejected, consolidate}
use membrane_ai.Orchestrator.Verdict.Decisions.{consolidate-eq-decision_of}
use membrane_ai.Orchestrator.Tests.{leak}

abbrev remark : Finding
remark = record { stage = bytes "analyzer"; rule = bytes "style"; severity = warning; message = [] }

consolidate-eq-decision_of_example : consolidate (remark ∷ leak ∷ []) ≡ rejected
consolidate-eq-decision_of_example = consolidate-eq-decision_of (remark ∷ leak ∷ [])
