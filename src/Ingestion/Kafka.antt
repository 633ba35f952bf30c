-- ===== src/Ingestion/Kafka.antt =====
-- services/ingestion/internal/adapters/kafka/publisher.go: `Publish`. Package json and the Kafka
-- client are a parameter; trace headers are left out.
pub mod HandedOver
use membrane_ai.Base.{Str, bytes, if◌then◌else◌}
use membrane_ai.Base.Context.{Context}
use membrane_ai.Envelope.{SubmissionV1}
use membrane_ai.Errs.{GoError, nil, is_err, internal_err, unavailable_err, Result, ok, err}
use membrane_ai.Ingestion.Submission.{Origin}
use membrane_ai.Ingestion.Enqueue.{Event, EventPublisher}

-- `string(o)`
unfoldable pub origin_string : Origin → Str
origin_string Origin.unspecified = bytes "unspecified"
origin_string Origin.ide = bytes "ide"
origin_string Origin.webhook = bytes "webhook"
origin_string (Origin.other s) = s

unfoldable pub submission_v1 : Event → SubmissionV1
unfolding origin_string
submission_v1 ev = record {
  submission_id = ev.submission_id;
  organization_id = ev.organization_id;
  repository = ev.submission.repository;
  file_path = ev.submission.file_path;
  language = ev.submission.language;
  origin = origin_string ev.submission.origin;
  diff = ev.submission.diff;
  occurred_at = ev.occurred_at;
  commit_sha = ev.submission.commit_sha;
  pr_number = ev.submission.pr_number;
}

-- `ProduceSync` of a record with this key and value.
abbrev pub Produce : Type 0 → Type 0
Produce E = (key value : Str) → E → GoError × E

abbrev op_kafka : Str
op_kafka = bytes "ingestion.adapters.kafka"

abbrev produced : {E : Type 0} → GoError × E → GoError × E
produced (er, e) =
    if is_err er then (unavailable_err op_kafka (bytes "produce record") er, e) else (nil, e)

abbrev send : {E : Type 0} → Produce E → Str → E → Result Str → GoError × E
send produce key e (err failed) = (internal_err op_kafka (bytes "marshal event") failed, e)
send produce key e (ok payload) = produced (produce key payload e)

-- `Publisher.Publish`
unfoldable pub kafka_publisher :
    {E : Type 0} → (SubmissionV1 → Result Str) → Produce E → EventPublisher E
unfolding submission_v1
kafka_publisher marshal produce = record {
  publish = λ ctx ev e. send produce ev.organization_id e (marshal (submission_v1 ev));
}
