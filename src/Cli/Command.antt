-- ===== src/Cli/Command.antt =====
-- clients/cli/cmd/membrane/main.go: the exit code of `membrane scan`. Flags, printing and files are
-- not modelled.
pub mod Exit
use membrane_ai.Base.{ℕ, ◌+◌, Bool, true, [], ◌&&◌, not, Str, bytes, ◌==◌, ltb, if◌then◌else◌}
use membrane_ai.Errs.{Result, ok, err}
use membrane_ai.Cli.Findings.{ScanResult}

abbrev pub exit_clean : ℕ
exit_clean = 0

abbrev pub exit_fail : ℕ
exit_fail = 1

abbrev pub exit_usage : ℕ
exit_usage = 2

-- The flags after parsing.
pub record Flags : Type 0 where
  pub json_out : Bool
  pub report_fmt : Str
  pub out_path : Str
  pub fail_on : Str

-- The checks of the flags in `run`: whether one of them fails.
unfoldable pub bad_flags : Flags → Bool
bad_flags f =
    if not (f.fail_on == bytes "blocking")
      && not (f.fail_on == bytes "warning")
      && not (f.fail_on == bytes "never")
    then true
    else if not (f.report_fmt == [])
        && not (f.report_fmt == bytes "md")
        && not (f.report_fmt == bytes "html")
    then true
    else if f.json_out && not (f.report_fmt == [])
    then true
    else not (f.out_path == []) && f.report_fmt == []

-- `decide`
unfoldable pub decide : Str → ScanResult → ℕ
decide fail_on res =
    if fail_on == bytes "warning"
    then if ltb 0 (res.blocking + res.warnings) then exit_fail else exit_clean
    else if fail_on == bytes "blocking"
    then if ltb 0 res.blocking then exit_fail else exit_clean
    else exit_clean

-- `run` from the scan on; `written` says whether the output of the result succeeds.
unfoldable pub exit_of_scan : (ScanResult → Bool) → Str → Result ScanResult → ℕ
unfolding decide
exit_of_scan written fail_on (err e) = exit_usage
exit_of_scan written fail_on (ok res) = if written res then decide fail_on res else exit_usage

-- `run` on a `scan` command with these flags.
unfoldable pub exit_code : (ScanResult → Bool) → Flags → Result ScanResult → ℕ
unfolding bad_flags exit_of_scan
exit_code written flags scanned =
    if bad_flags flags then exit_usage else exit_of_scan written flags.fail_on scanned
