-- ===== src/Analyzer/Tests/Scanned.antt =====
-- The theorem on the analyzer and the shared detectors at a concrete change.
use membrane_ai.Base.{◌≡◌, [], ◌∷◌, bytes}
use membrane_ai.Base.Context.{background}
use membrane_ai.Errs.{ok}
use membrane_ai.Scan.Tests.{lib, two_lines, key_found, key_scanned}
use membrane_ai.Analyzer.Analyze.{Input, analyze_diff}
use membrane_ai.Analyzer.Detectors.{service_detectors, from_scan}
use membrane_ai.Analyzer.Detectors.Shared.{analyze_diff-run}

abbrev key_change : Input
key_change = record {
  submission_id = bytes "s-1";
  organization_id = bytes "acme";
  repository = bytes "acme/app";
  file_path = bytes "main.go";
  language = bytes "go";
  diff = two_lines;
}

analyze_diff-run_example :
    analyze_diff (service_detectors lib) background key_change
    ≡ ok (record { findings = from_scan (key_found ∷ []); masked_diff = two_lines })
analyze_diff-run_example =
    analyze_diff-run lib background key_change (key_found ∷ []) two_lines key_scanned
