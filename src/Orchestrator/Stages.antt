-- ===== src/Orchestrator/Stages.antt =====
-- services/orchestrator/internal/adapters: the stages of the saga. The gRPC clients, the HTTP
-- client, package json and package uuid are parameters, on the state `E` of the world.
pub mod Remote
pub mod Analyzed
pub mod Secrets
use membrane_ai.Base.{
  ℕ, Bool, true, false, Option, none, some, List, [], ◌∷◌, ◌++◌, Str, bytes, ◌==◌, take, eqb,
  if◌then◌else◌,
}
use membrane_ai.Base.Context.{Context}
use membrane_ai.Base.Decimal.{decimal}
use membrane_ai.Errs.{GoError, nil, is_err, plain, internal_err, unavailable_err, Result, ok, err}
use membrane_ai.Scan
use membrane_ai.Scan.{ScanLib, secret_detect}
use membrane_ai.Analyzer.Server.{ProtoSeverity, ProtoFinding, AnalyzeRequest, AnalyzeResponse}
use membrane_ai.Orchestrator.Verdict.{Submission, Severity, Finding}
use membrane_ai.Orchestrator.Saga.{StageResult, AnalysisStage}

abbrev pub no_result : StageResult
no_result = record { findings = []; masked_diff = [] }

-- stages/secretscan.go. `domain.Severity(f.Severity)`: both are strings, with the same constants.
unfoldable pub severity_of : Scan.Severity → Severity
severity_of Scan.Severity.info = Severity.info
severity_of Scan.Severity.warning = Severity.warning
severity_of Scan.Severity.blocking = Severity.blocking
severity_of (Scan.Severity.other s) = Severity.other s

unfoldable pub scan_findings : List Scan.Finding → List Finding
scan_findings [] = []
scan_findings (f ∷ fs) =
    record {
      stage = bytes "secret-scan";
      rule = f.rule;
      severity = severity_of f.severity;
      message = f.message;
    }
    ∷ scan_findings fs

abbrev pub scan_result : {E : Type 0} → E → Result (List Scan.Finding) → StageResult × GoError × E
scan_result e (err failed) = (no_result, failed, e)
scan_result e (ok fs) = (record { findings = scan_findings fs; masked_diff = [] }, nil, e)

-- `SecretScan`
unfoldable pub secret_scan : {E : Type 0} → ScanLib → AnalysisStage E
secret_scan lib = record {
  name = bytes "secret-scan";
  analyze = λ ctx sub e. scan_result e (secret_detect lib ctx sub.diff sub.language);
}

-- grpcstage/stage.go
unfoldable pub severity_from_proto : ProtoSeverity → Severity
severity_from_proto ProtoSeverity.blocking = Severity.blocking
severity_from_proto ProtoSeverity.warning = Severity.warning
severity_from_proto ProtoSeverity.info = Severity.info
severity_from_proto ProtoSeverity.unspecified = Severity.warning
severity_from_proto (ProtoSeverity.other n) = Severity.warning

abbrev pub from_proto : ProtoFinding → Finding
from_proto f = record {
  stage = bytes "analyzer";
  rule = f.rule;
  severity = severity_from_proto f.severity;
  message = f.message;
}

unfoldable pub findings_from_proto : List ProtoFinding → List Finding
findings_from_proto [] = []
findings_from_proto (f ∷ fs) = from_proto f ∷ findings_from_proto fs

abbrev pub request_of : Submission → AnalyzeRequest
request_of sub = record {
  submission_id = sub.submission_id;
  organization_id = sub.organization_id;
  repository = sub.repository;
  file_path = sub.file_path;
  language = sub.language;
  diff = sub.diff;
}

-- `AnalyzerServiceClient.Analyze`
abbrev pub AnalyzerClient : Type 0 → Type 0
AnalyzerClient E = Context → AnalyzeRequest → E → Result AnalyzeResponse × E

abbrev pub remote_result : {E : Type 0} → E → Result AnalyzeResponse → StageResult × GoError × E
remote_result e (err failed) = (
  no_result,
  unavailable_err (bytes "orchestrator.adapters.grpcstage") (bytes "analyzer call failed") failed,
  e,
)
remote_result e (ok resp) = (
  record { findings = findings_from_proto resp.findings; masked_diff = resp.masked_diff },
  nil,
  e,
)

-- `Stage` of package grpcstage
unfoldable pub grpc_stage : {E : Type 0} → AnalyzerClient E → AnalysisStage E
grpc_stage client = record {
  name = bytes "analyzer";
  analyze =
      λ ctx sub e. let (answer, e') = client ctx (request_of sub) e in remote_result e' answer;
}
