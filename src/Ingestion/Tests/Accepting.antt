-- ===== src/Ingestion/Tests/Accepting.antt =====
-- The theorems on the ingestion at concrete submissions.
use membrane_ai.Base.{◌≡◌, refl, inl, arith, bytes}
use membrane_ai.Base.Int.{pos}
use membrane_ai.Errs.{ok}
use membrane_ai.Ingestion.Submission.Accepted.{IsWellFormed}
use membrane_ai.Ingestion.Enqueue.{Event}
use membrane_ai.Ingestion.Kafka.{submission_v1}
use membrane_ai.Ingestion.Kafka.HandedOver.{IsHandedOver, queued-IsHandedOver}
use membrane_ai.Orchestrator.Codec.{submission_of}
use membrane_ai.Ingestion.Tests.{run, change}
use membrane_ai.Orchestrator.Verdict

change-IsWellFormed : IsWellFormed change
unfolding run
change-IsWellFormed = record {
  organization = refl;
  repository = refl;
  file = refl;
  diff = refl;
  size = omega arith;
  origin = inl refl;
}

abbrev queued : Event
queued = record {
  submission_id = bytes "41";
  organization_id = bytes "acme";
  submission = change;
  occurred_at = pos 5;
}

queued-IsHandedOver_example :
    (sub : Verdict.Submission) × (submission_of (submission_v1 queued) ≡ ok sub)
    × IsHandedOver queued sub
unfolding run
queued-IsHandedOver_example = queued-IsHandedOver queued change-IsWellFormed refl refl
