-- ===== src/Orchestrator/Stages/Remote.antt =====
-- What the findings of the analyzer become on their way to the saga.
use membrane_ai.Base.{◌≡◌, refl, List, [], ◌∷◌, bytes}
use membrane_ai.Analyzer.Analyze
use membrane_ai.Analyzer.Server.{severity_to_proto, findings_to_proto}
use membrane_ai.Orchestrator.Verdict.{Severity, Finding}
use membrane_ai.Orchestrator.Stages.{severity_from_proto, findings_from_proto}

-- The three severities arrive as they are, and any other as a warning.
abbrev pub carried_severity : Analyze.Severity → Severity
carried_severity Analyze.Severity.info = Severity.info
carried_severity Analyze.Severity.warning = Severity.warning
carried_severity Analyze.Severity.blocking = Severity.blocking
carried_severity (Analyze.Severity.other s) = Severity.warning

abbrev pub carried : List Analyze.Finding → List Finding
carried [] = []
carried (f ∷ fs) =
    record {
      stage = bytes "analyzer";
      rule = f.rule;
      severity = carried_severity f.severity;
      message = f.message;
    }
    ∷ carried fs

severity_from_proto-severity_to_proto :
    (s : Analyze.Severity) → severity_from_proto (severity_to_proto s) ≡ carried_severity s
unfolding severity_from_proto severity_to_proto
severity_from_proto-severity_to_proto Analyze.Severity.info = refl
severity_from_proto-severity_to_proto Analyze.Severity.warning = refl
severity_from_proto-severity_to_proto Analyze.Severity.blocking = refl
severity_from_proto-severity_to_proto (Analyze.Severity.other s) = refl

-- No finding is lost or reordered on the wire from the analyzer to the saga, and each keeps its rule,
-- message and severity; a severity that the analyzer does not know arrives as a warning.
pub findings_from_proto-findings_to_proto :
    (fs : List Analyze.Finding) → findings_from_proto (findings_to_proto fs) ≡ carried fs
unfolding findings_from_proto findings_to_proto
findings_from_proto-findings_to_proto [] = refl
findings_from_proto-findings_to_proto (f ∷ fs) =
    cc (severity_from_proto-severity_to_proto f.severity, findings_from_proto-findings_to_proto fs)
