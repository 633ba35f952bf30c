-- ===== src/Cli/Findings.antt =====
-- clients/cli/internal/runner/runner.go: the findings of a scan.
use membrane_ai.Base.{ℕ, List, Str}
use membrane_ai.Base.Int.{ℤ}
use membrane_ai.Scan.{Severity}

pub record FileFinding : Type 0 where
  pub file : Str
  pub line : ℤ
  pub rule : Str
  pub severity : Severity
  pub message : Str
  pub excerpt : Str

-- `Result`. The counters start at zero and only grow.
pub record ScanResult : Type 0 where
  pub root : Str
  pub files_scanned : ℕ
  pub files_skipped : ℕ
  pub findings : List FileFinding
  pub blocking : ℕ
  pub warnings : ℕ
  pub infos : ℕ
