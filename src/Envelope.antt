-- ===== src/Envelope.antt =====
-- pkg/envelope/envelope.go: the payloads of the bus.
use membrane_ai.Base.{List, Str}
use membrane_ai.Base.Int.{ℤ}

pub record SubmissionV1 : Type 0 where
  pub submission_id : Str
  pub organization_id : Str
  pub repository : Str
  pub file_path : Str
  pub language : Str
  pub origin : Str
  pub diff : Str
  pub occurred_at : ℤ
  pub commit_sha : Str
  pub pr_number : ℤ

pub record FindingV1 : Type 0 where
  pub stage : Str
  pub rule : Str
  pub severity : Str
  pub message : Str

pub record VerdictV1 : Type 0 where
  pub submission_id : Str
  pub organization_id : Str
  pub decision : Str
  pub source : Str
  pub ruleset_version : Str
  pub findings : List FindingV1
  pub evaluated_at : ℤ
  pub repository : Str
  pub commit_sha : Str
  pub pr_number : ℤ
