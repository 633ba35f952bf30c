-- ===== src/Orchestrator/Codec.antt =====
-- services/orchestrator/internal/adapters/codec/codec.go, and `handleRecord` of kafkabus/consumer.go
-- beside it. Package json is a parameter; logs, traces and metrics are left out.
use membrane_ai.Base.{List, [], ◌∷◌, Str, bytes}
use membrane_ai.Base.Context.{Context}
use membrane_ai.Envelope.{SubmissionV1, FindingV1, VerdictV1}
use membrane_ai.Errs.{validation_err, internal_err, Result, ok, err}
use membrane_ai.Orchestrator.Verdict.{
  Submission, new_submission, with_source, Severity, Finding, Decision, approved, needs_review,
  rejected, Source, Verdict,
}

abbrev op_codec : Str
op_codec = bytes "orchestrator.adapters.codec"

-- `string(s)`, `string(d)` and `string(v.Source)`
unfoldable pub severity_string : Severity → Str
severity_string Severity.info = bytes "info"
severity_string Severity.warning = bytes "warning"
severity_string Severity.blocking = bytes "blocking"
severity_string (Severity.other s) = s

unfoldable pub decision_string : Decision → Str
decision_string approved = bytes "approved"
decision_string needs_review = bytes "needs_review"
decision_string rejected = bytes "rejected"
decision_string (Decision.other s) = s

unfoldable pub source_string : Source → Str
source_string Source.cache = bytes "cache"
source_string Source.pipeline = bytes "pipeline"
source_string Source.fallback = bytes "fallback"
source_string (Source.other s) = s

abbrev sourced : SubmissionV1 → Result Submission → Result Submission
sourced env (err e) = err e
sourced env (ok sub) = ok (with_source sub env.commit_sha env.pr_number)

-- `DecodeSubmission` on the envelope.
unfoldable pub submission_of : SubmissionV1 → Result Submission
submission_of env = sourced env (
    new_submission env.submission_id env.organization_id env.repository env.file_path env.language
      env.diff env.origin env.occurred_at)

abbrev decoded : Result SubmissionV1 → Result Submission
decoded (err e) = err (validation_err op_codec (bytes "malformed submission payload") e)
decoded (ok env) = submission_of env

-- `DecodeSubmission`
unfoldable pub decode_submission : (Str → Result SubmissionV1) → Str → Result Submission
unfolding submission_of
decode_submission unmarshal payload = decoded (unmarshal payload)

unfoldable pub findings_v1 : List Finding → List FindingV1
unfolding severity_string
findings_v1 [] = []
findings_v1 (f ∷ fs) =
    record {
      stage = f.stage;
      rule = f.rule;
      severity = severity_string f.severity;
      message = f.message;
    }
    ∷ findings_v1 fs

-- The envelope that `EncodeVerdict` renders.
unfoldable pub verdict_v1 : Verdict → VerdictV1
unfolding findings_v1 decision_string source_string
verdict_v1 v = record {
  submission_id = v.submission_id;
  organization_id = v.organization_id;
  decision = decision_string v.decision;
  source = source_string v.source;
  ruleset_version = v.ruleset_version;
  findings = findings_v1 v.findings;
  evaluated_at = v.evaluated_at;
  repository = v.repository;
  commit_sha = v.commit_sha;
  pr_number = v.pr_number;
}

abbrev encoded : Result Str → Result Str
encoded (err e) = err (internal_err op_codec (bytes "marshal verdict") e)
encoded (ok payload) = ok payload

-- `EncodeVerdict`
unfoldable pub encode_verdict : (VerdictV1 → Result Str) → Verdict → Result Str
unfolding verdict_v1
encode_verdict marshal v = encoded (marshal (verdict_v1 v))

-- `handleRecord`, over the processor `Handle`: an invalid record is skipped.
abbrev pub on_submission :
    {E : Type 0}
    → (Context → Submission → E → Result Verdict × E)
    → Context
    → E
    → Result Submission
    → E
on_submission process ctx e (err failed) = e
on_submission process ctx e (ok sub) = (process ctx sub e).1

unfoldable pub handle_record :
    {E : Type 0}
    → (Str → Result SubmissionV1)
    → (Context → Submission → E → Result Verdict × E)
    → Context
    → Str
    → E
    → E
handle_record unmarshal process ctx payload e =
    on_submission process ctx e (decode_submission unmarshal payload)
