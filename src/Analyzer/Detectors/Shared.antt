-- ===== src/Analyzer/Detectors/Shared.antt =====
-- The analyzer reports what the command line reports on the same text.
use membrane_ai.Base.{◌≡◌, refl, ap, List, [], ◌∷◌, ◌++◌, Str, bytes}
use membrane_ai.Base.Context.{Context}
use membrane_ai.Errs.{Result, ok, err}
use membrane_ai.Scan
use membrane_ai.Scan.{ScanLib, secret_detect, secret_mask, risky_detect, default_detectors}
use membrane_ai.Analyzer.Analyze.{Input, Detector, after, analyze_diff}
use membrane_ai.Analyzer.Detectors.{
  finding_of, from_scan, converted, secret_detector, risky_detector, service_detectors,
}

from_scan-append : (xs ys : List Scan.Finding) → from_scan (xs ++ ys) ≡ from_scan xs ++ from_scan ys
unfolding from_scan
from_scan-append [] ys = refl
from_scan-append (x ∷ xs) ys = ap (λ l. finding_of x ∷ l) (from_scan-append xs ys)

-- The two chains, given what the two detectors of package scan answer.
two_detectors :
    (d d' : Detector) (name name' : Str) (leaks risks : Result (List Scan.Finding)) (text : Str)
    (found : List Scan.Finding) (masked : Str)
    → Scan.after name leaks (λ out. Scan.after name' risks (λ out'. ok (out ++ out', text)))
      ≡ ok (found, masked)
    → after d (converted leaks) (λ out.
      after d'
        (converted risks)
        (λ out'. ok (record { findings = out ++ out'; masked_diff = text })))
      ≡ ok (record { findings = from_scan found; masked_diff = masked })
two_detectors d d' name name' (err e) risks text found masked h = absurd (cc h)
two_detectors d d' name name' (ok leaks) (err e) text found masked h = absurd (cc h)
two_detectors d d' name name' (ok leaks) (ok risks) text found masked h =
    cc (h, from_scan-append leaks risks)

module _ (lib : ScanLib) (ctx : Context) (input : Input) where
  -- Whenever `scan.Run` with its default detectors returns findings and a masked text for a diff in
  -- a language, as the command line calls it, the chain of the analyzer returns the same findings
  -- and the same masked diff for that input.
  pub analyze_diff-run :
      (found : List Scan.Finding) (masked : Str)
      → Scan.run ctx input.diff input.language (default_detectors lib) ≡ ok (found, masked)
      → analyze_diff (service_detectors lib) ctx input
        ≡ ok (record { findings = from_scan found; masked_diff = masked })
  unfolding Scan.run analyze_diff
  analyze_diff-run found masked h =
      two_detectors (secret_detector lib) (risky_detector lib) (bytes "secret")
        (bytes "risky-pattern") (secret_detect lib ctx input.diff input.language)
        (risky_detect lib ctx input.diff input.language) (secret_mask lib input.diff) found masked h
