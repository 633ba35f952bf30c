-- ===== src/Analyzer/Detectors.antt =====
-- services/analyzer/internal/domain/detectors.go: the detectors of package scan as detectors of the
-- analyzer.
pub mod Shared
use membrane_ai.Base.{Option, none, some, List, [], ◌∷◌, Str, bytes}
use membrane_ai.Base.Context.{Context}
use membrane_ai.Errs.{Result, ok, err}
use membrane_ai.Scan
use membrane_ai.Scan.{ScanLib, secret_detect, secret_mask, risky_detect}
use membrane_ai.Analyzer.Analyze.{Input, Severity, Finding, Detector}

-- `Severity(f.Severity)`: both are strings, with the same constants.
unfoldable pub severity_of : Scan.Severity → Severity
severity_of Scan.Severity.info = Severity.info
severity_of Scan.Severity.warning = Severity.warning
severity_of Scan.Severity.blocking = Severity.blocking
severity_of (Scan.Severity.other s) = Severity.other s

abbrev pub finding_of : Scan.Finding → Finding
finding_of f = record {
  rule = f.rule;
  severity = severity_of f.severity;
  message = f.message;
  line = f.line;
}

-- `fromScan`
unfoldable pub from_scan : List Scan.Finding → List Finding
from_scan [] = []
from_scan (f ∷ fs) = finding_of f ∷ from_scan fs

abbrev pub converted : Result (List Scan.Finding) → Result (List Finding)
converted (err e) = err e
converted (ok fs) = ok (from_scan fs)

module _ (lib : ScanLib) where
  -- `SecretDetector.Detect` and `Mask`
  abbrev pub secret_detector : Detector
  secret_detector = record {
    name = bytes "secret";
    detect = λ ctx input. converted (secret_detect lib ctx input.diff input.language);
    mask = some (secret_mask lib);
  }

  -- `RiskyPatternDetector.Detect`
  abbrev pub risky_detector : Detector
  risky_detector = record {
    name = bytes "risky-pattern";
    detect = λ ctx input. converted (risky_detect lib ctx input.diff input.language);
    mask = none;
  }

  -- The chain that the service is wired with.
  abbrev pub service_detectors : List Detector
  service_detectors = secret_detector ∷ risky_detector ∷ []
