-- ===== src/Scan/Tests.antt =====
-- The secret detector on a concrete text, with a matcher that knows one pattern.
use membrane_ai.Base.{
  ◌≡◌, ◌↔◌, refl, ◌&&◌, arith, [], ◌∷◌, Str, bytes, ◌==◌, contains_str, trim_space, Any,
}
use membrane_ai.Base.Context.{background}
use membrane_ai.Errs.{nil, ok}
use membrane_ai.Scan.{
  Finding, ScanLib, leak_at, each_line, secret_hits, secret_detect, mask_patterns, secret_mask,
  risky_hits, risky_detect, run_from, run, masked_by, default_detectors,
}
use membrane_ai.Scan.Lines.{split_lines}
use membrane_ai.Scan.Hits.{Flags, Leaks, secret_detect_iff}

-- Everything that a scan computes with.
scanning : Unit {0}
unfolding bytes ◌==◌ contains_str trim_space split_lines each_line secret_hits secret_detect
    mask_patterns secret_mask risky_hits risky_detect run_from run masked_by
scanning = tt

abbrev pub key_pattern : Str
key_pattern = bytes "\\bAKIA[0-9A-Z]{16}\\b"

-- It takes every text with AKIA for a key, and masks nothing.
abbrev pub lib : ScanLib
lib = record {
  match_string = λ re line. re == key_pattern && contains_str line (bytes "AKIA");
  replace_all = λ re s with_text. s;
  to_lower = λ s. s;
  ctx_err = λ ctx i. nil;
}

abbrev pub two_lines : Str
two_lines = bytes "+x\n+AKIA"

abbrev pub key_rule : Str
key_rule = bytes "aws-access-key-id"

abbrev pub key_found : Finding
key_found = leak_at lib (record { rule = key_rule; re = key_pattern }) 1

pub key_is_found : secret_detect lib background two_lines (bytes "go") ≡ ok (key_found ∷ [])
unfolding scanning
key_is_found = refl

pub key_scanned :
    run background two_lines (bytes "go") (default_detectors lib) ≡ ok (key_found ∷ [], two_lines)
unfolding scanning
key_scanned = refl

pub key-Leaks : Leaks lib two_lines key_rule 1
unfolding scanning
key-Leaks = (bytes "+AKIA", refl, ground arith)

secret_detect_iff_example : Any (Flags key_rule 2) (key_found ∷ []) ↔ Leaks lib two_lines key_rule 1
secret_detect_iff_example =
    secret_detect_iff lib background two_lines (bytes "go") key_rule 1 (key_found ∷ []) key_is_found
