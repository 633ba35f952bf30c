-- ===== src/Scan.antt =====
-- pkg/scan/scan.go: the detectors that the analyzer, the fallback stage and the command line share.
-- Package regexp is a parameter, which is given the source of each expression.
pub mod Lines
pub mod Hits
pub mod Tests
use membrane_ai.Base.{
  ℕ, suc, ◌+◌, Bool, true, false, ◌&&◌, not, Option, none, some, List, [], ◌∷◌, ◌++◌, Str, bytes,
  ◌==◌, trim_space, if◌then◌else◌,
}
use membrane_ai.Base.Int.{ℤ, pos}
use membrane_ai.Base.Context.{Context}
use membrane_ai.Errs.{GoError, is_err, wrapped, Result, ok, err}
use Lines.{split_lines}

-- A `type Severity string`: `other` holds a string that is none of the constants.
pub data Severity : Type 0 where
  info warning blocking : Severity
  other : Str → Severity

pub record Finding : Type 0 where
  pub rule : Str
  pub severity : Severity
  pub message : Str
  pub line : ℤ

-- `Regexp.MatchString` and `Regexp.ReplaceAllString` of an expression, `strings.ToLower`, and what
-- `ctx.Err()` answers when a detector asks for it before a line: the same in every run under one
-- context.
pub record ScanLib : Type 0 where
  pub match_string : Str → Str → Bool
  pub replace_all : Str → Str → Str → Str
  pub to_lower : Str → Str
  pub ctx_err : Context → ℕ → GoError

-- A `Detector`; `mask` is there if it is a `Masker` too.
pub record Detector : Type 0 where
  pub name : Str
  pub detect : Context → Str → Str → Result (List Finding)
  pub mask : Option (Str → Str)

pub record SecretPattern : Type 0 where
  pub rule : Str
  pub re : Str

abbrev pub secret_patterns : List SecretPattern
secret_patterns =
    record {
      rule = bytes "private-key-block";
      re = bytes "-----BEGIN (?:RSA |EC |OPENSSH |DSA |PGP )?PRIVATE KEY[^\\n]*";
    }
    ∷ record { rule = bytes "aws-access-key-id"; re = bytes "\\bAKIA[0-9A-Z]{16}\\b" }
    ∷ record { rule = bytes "github-token"; re = bytes "\\bgh[pousr]_[A-Za-z0-9]{20,}\\b" }
    ∷ record { rule = bytes "slack-token"; re = bytes "\\bxox[baprs]-[A-Za-z0-9-]{10,}\\b" }
    ∷ record {
      rule = bytes "generic-assigned-secret";
      re = bytes "(?i)(?:password|passwd|secret|api[_-]?key|token)\\s*[:=]\\s*[\"'][^\"']{8,}[\"']";
    }
    ∷ []

pub record RiskyPattern : Type 0 where
  pub rule : Str
  pub severity : Severity
  pub message : Str
  pub re : Str
  pub language : Str

abbrev pub risky_patterns : List RiskyPattern
risky_patterns =
    record {
      rule = bytes "sql-string-concat";
      severity = warning;
      message = bytes "SQL built by string concatenation; use parameterized queries";
      re = bytes "(?i)\\b(?:query|exec|prepare)\\w*\\(\\s*\"[^\"]*\"\\s*\\+";
      language = [];
    }
    ∷ record {
      rule = bytes "exec-command-concat";
      severity = warning;
      message = bytes "command built from concatenated input; risk of command injection";
      re = bytes "exec\\.Command\\w*\\([^)]*\\+";
      language = bytes "go";
    }
    ∷ record {
      rule = bytes "insecure-tls-skip-verify";
      severity = warning;
      message = bytes "TLS certificate verification disabled (InsecureSkipVerify)";
      re = bytes "InsecureSkipVerify\\s*:\\s*true";
      language = bytes "go";
    }
    ∷ []

-- The outer loop of both `Detect` methods, over the findings so far: `hits` is the inner loop.
unfoldable pub each_line :
    (ℕ → GoError) → (ℕ → Str → List Finding) → ℕ → List Finding → List Str → Result (List Finding)
each_line err_at hits i findings [] = ok findings
each_line err_at hits i findings (line ∷ rest) =
    let later = each_line err_at hits (suc i) (findings ++ hits i line) rest in
    if is_err (err_at i) then err (err_at i) else later

module _ (lib : ScanLib) where
  abbrev pub leak_at : SecretPattern → ℕ → Finding
  leak_at p i = record {
    rule = p.rule;
    severity = blocking;
    message = bytes "potential credential detected (" ++ p.rule ++ bytes "); remove and rotate it";
    line = pos (suc i);
  }

  -- The inner loop of `SecretDetector.Detect`.
  unfoldable pub secret_hits : List SecretPattern → ℕ → Str → List Finding
  secret_hits [] i line = []
  secret_hits (p ∷ rest) i line =
      let later = secret_hits rest i line in
      if lib.match_string p.re line then leak_at p i ∷ later else later

  -- `SecretDetector.Detect`
  unfoldable pub secret_detect : Context → Str → Str → Result (List Finding)
  unfolding each_line secret_hits split_lines
  secret_detect ctx content language =
      each_line (lib.ctx_err ctx) (secret_hits secret_patterns) 0 [] (split_lines content)

  -- The loop of `SecretDetector.Mask`.
  unfoldable pub mask_patterns : List SecretPattern → Str → Str
  mask_patterns [] masked = masked
  mask_patterns (p ∷ rest) masked =
      mask_patterns rest (lib.replace_all p.re masked (bytes "[MASKED:" ++ p.rule ++ bytes "]"))

  -- `SecretDetector.Mask`
  unfoldable pub secret_mask : Str → Str
  unfolding mask_patterns
  secret_mask content = mask_patterns secret_patterns content

  -- `p.language != "" && p.language != language`
  abbrev pub is_skipped : RiskyPattern → Str → Bool
  is_skipped p language = not (p.language == []) && not (p.language == language)

  abbrev risk_at : RiskyPattern → ℕ → Finding
  risk_at p i = record {
    rule = p.rule;
    severity = p.severity;
    message = p.message;
    line = pos (suc i);
  }

  -- The inner loop of `RiskyPatternDetector.Detect`.
  unfoldable pub risky_hits : List RiskyPattern → Str → ℕ → Str → List Finding
  risky_hits [] language i line = []
  risky_hits (p ∷ rest) language i line =
      let later = risky_hits rest language i line in
      if is_skipped p language
      then later
      else if lib.match_string p.re line
      then risk_at p i ∷ later
      else later

  -- `RiskyPatternDetector.Detect`
  unfoldable pub risky_detect : Context → Str → Str → Result (List Finding)
  unfolding each_line risky_hits split_lines
  risky_detect ctx content language =
      each_line (lib.ctx_err ctx) (risky_hits risky_patterns (lib.to_lower (trim_space language))) 0
        [] (split_lines content)

  abbrev pub secret_detector : Detector
  secret_detector = record {
    name = bytes "secret";
    detect = secret_detect;
    mask = some secret_mask;
  }

  abbrev pub risky_detector : Detector
  risky_detector = record { name = bytes "risky-pattern"; detect = risky_detect; mask = none }

  -- `Default`
  abbrev pub default_detectors : List Detector
  default_detectors = secret_detector ∷ risky_detector ∷ []

-- `if m, ok := d.(Masker); ok { masked = m.Mask(masked) }`
unfoldable pub masked_by : Option (Str → Str) → Str → Str
masked_by none masked = masked
masked_by (some mask) masked = mask masked

-- What the loop of `Run` does with the answer of a detector.
abbrev pub after :
    Str
    → Result (List Finding)
    → (List Finding → Result (List Finding × Str))
    → Result (List Finding × Str)
after name (err e) next = err (wrapped (bytes "detector " ++ name ++ bytes ": ") e)
after name (ok out) next = next out

-- The loop of `Run`, over the findings and the masked content so far.
unfoldable pub run_from :
    Context → Str → Str → List Finding → Str → List Detector → Result (List Finding × Str)
unfolding masked_by
run_from ctx content language findings masked [] = ok (findings, masked)
run_from ctx content language findings masked (d ∷ rest) =
    after d.name (d.detect ctx content language)
      (λ out. run_from ctx content language (findings ++ out) (masked_by d.mask masked) rest)

-- `Run`
unfoldable pub run : Context → Str → Str → List Detector → Result (List Finding × Str)
unfolding run_from
run ctx content language detectors = run_from ctx content language [] content detectors
