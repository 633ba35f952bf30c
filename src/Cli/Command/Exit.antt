-- ===== src/Cli/Command/Exit.antt =====
-- What the exit code of a scan says.
use mathlib.Core.Path.{subst}
use membrane_ai.Base.{ℕ, Bool, ◌+◌, ◌<◌, ◌≡◌, ◌↔◌, true, Str, bytes, ◌==◌, arith}
use membrane_ai.Base.Context.{Context}
use membrane_ai.Errs.{ok}
use membrane_ai.Scan.{ScanLib}
use membrane_ai.Cli.Findings.{ScanResult}
use membrane_ai.Cli.Runner.{Entry, run_root, is_blocking, is_warning}
use membrane_ai.Cli.Excerpt.{PathLib}
use membrane_ai.Cli.Runner.Counted.{over, run_root-IsCounted}
use membrane_ai.Cli.Command.{decide, exit_of_scan, exit_fail}

decide-blocking :
    (res : ScanResult) → (decide (bytes "blocking") res ≡ exit_fail) ↔ (0 < res.blocking)
unfolding decide bytes ◌==◌
decide-blocking res = ground arith

decide-warning :
    (res : ScanResult)
    → (decide (bytes "warning") res ≡ exit_fail) ↔ (0 < res.blocking + res.warnings)
unfolding decide bytes ◌==◌
decide-warning res = ground arith

module _ (path_lib : PathLib) (lib : ScanLib) (ctx : Context) (max_size : ℕ) (root : Str) where
  -- A scan whose result is written exits with 1, under `--fail-on=blocking`, exactly if it lists a
  -- blocking finding, and under `--fail-on=warning` exactly if it lists a blocking finding or a
  -- warning.
  pub exit_of_scan_iff :
      (entry : Entry) (res : ScanResult) (written : ScanResult → Bool)
      → run_root path_lib lib ctx max_size root entry ≡ ok res
      → written res ≡ true
      → ((exit_of_scan written (bytes "blocking") (ok res) ≡ exit_fail)
          ↔ (0 < over is_blocking res))
        × ((exit_of_scan written (bytes "warning") (ok res) ≡ exit_fail)
            ↔ (0 < over is_blocking res + over is_warning res))
  unfolding exit_of_scan
  exit_of_scan_iff entry res written ran out =
      let counted = run_root-IsCounted path_lib lib ctx max_size root entry res ran in
      let (to, from) = decide-blocking res in
      let (to', from') = decide-warning res in
      let b = counted.blocking_counted in
      let w = counted.warnings_counted in
      rw out (
        ((λ e. subst (λ n. 0 < n) b (to e)), (λ h. from (omega (arith, h, b)))),
        ((λ e. omega (arith, to' e, b, w)), (λ h. from' (omega (arith, h, b, w)))),
      )
