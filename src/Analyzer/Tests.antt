-- ===== src/Analyzer/Tests.antt =====
-- The analyzer on a concrete change, with two detectors of which the first masks.
mod Scanned
use membrane_ai.Base.{
  ◌≡◌, refl, none, some, [], ◌∷◌, Str, bytes, is_blank, trim_space, to_lower_ascii, ◌==◌,
}
use membrane_ai.Base.Int.{pos}
use membrane_ai.Errs.{ok}
use membrane_ai.Analyzer.Analyze.{
  Input, Finding, blocking, warning, Detector, new_input, masked_by, run_chain, analyze_diff,
}

-- Everything that these inputs compute with.
run : Unit {0}
unfolding bytes ◌==◌ is_blank trim_space to_lower_ascii new_input masked_by run_chain analyze_diff
run = tt

abbrev change : Input
change = record {
  submission_id = bytes "s-1";
  organization_id = bytes "acme";
  repository = bytes "acme/app";
  file_path = bytes "main.go";
  language = bytes "go";
  diff = bytes "+key";
}

abbrev leak : Finding
leak = record { rule = bytes "key"; severity = blocking; message = bytes "rotate it"; line = pos 1 }

abbrev note : Finding
note = record {
  rule = bytes "style";
  severity = warning;
  message = bytes "rename it";
  line = pos 1;
}

abbrev secret : Detector
secret = record {
  name = bytes "secret";
  detect = λ ctx input. ok (leak ∷ []);
  mask = some (λ diff. bytes "+[MASKED:key]");
}

abbrev style : Detector
style = record { name = bytes "style"; detect = λ ctx input. ok (note ∷ []); mask = none }

input_accepted :
    new_input to_lower_ascii
      (bytes "s-1")
      (bytes "acme ")
      (bytes "acme/app")
      (bytes "main.go")
      (bytes " Go")
      (bytes "+key")
    ≡ ok change
unfolding run
input_accepted = refl
