-- ===== src/Reporter/Consumer.antt =====
-- services/reporter/internal/adapters/kafkabus/consumer.go: `handleRecord`. Package json is a
-- parameter; logs and traces are left out.
pub mod Reported
use membrane_ai.Base.{List, [], ◌∷◌, Str}
use membrane_ai.Base.Context.{Context}
use membrane_ai.Envelope.{FindingV1, VerdictV1}
use membrane_ai.Errs.{Result, ok, err}
use membrane_ai.Reporter.Report.{Finding, Verdict}
use membrane_ai.Reporter.Dispatch.{DispatchVerdict, handle}

unfoldable pub findings_of : List FindingV1 → List Finding
findings_of [] = []
findings_of (f ∷ fs) =
    record { stage = f.stage; rule = f.rule; severity = f.severity; message = f.message }
    ∷ findings_of fs

-- The verdict that `handleRecord` makes of the envelope.
unfoldable pub verdict_of : VerdictV1 → Verdict
unfolding findings_of
verdict_of env = record {
  submission_id = env.submission_id;
  organization_id = env.organization_id;
  decision = env.decision;
  source = env.source;
  ruleset_version = env.ruleset_version;
  findings = findings_of env.findings;
  repository = env.repository;
  commit_sha = env.commit_sha;
  pr_number = env.pr_number;
}

module _ {E : Type 0} (uc : DispatchVerdict E) where
  abbrev pub on_envelope : Context → E → Result VerdictV1 → E
  on_envelope ctx e (err failed) = e
  on_envelope ctx e (ok env) = (handle uc ctx (verdict_of env) e).1

  -- `handleRecord`: a malformed record is skipped, and an error of the dispatch only logged.
  unfoldable pub handle_record : (Str → Result VerdictV1) → Context → Str → E → E
  unfolding verdict_of
  handle_record unmarshal ctx payload e = on_envelope ctx e (unmarshal payload)
