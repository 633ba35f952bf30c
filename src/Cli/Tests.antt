-- ===== src/Cli/Tests.antt =====
-- The command line on a concrete tree: a file with a secret, beside a directory that is skipped.
use membrane_ai.Base.{
  ℕ, ◌+◌, ◌≤◌, ◌<◌, ◌≡◌, ◌↔◌, refl, true, some, [], ◌∷◌, Str, bytes, ◌==◌, trim_space, contains_str,
  length, All,
}
use membrane_ai.Base.Int.{pos}
use membrane_ai.Base.Maps.{lookup}
use membrane_ai.Base.Context.{background}
use membrane_ai.Errs.{ok}
use membrane_ai.Scan
use membrane_ai.Scan.{blocking, warning, secret_detect, risky_detect, secret_mask}
use membrane_ai.Scan.Lines.{split_lines}
use membrane_ai.Scan.Tests.{lib, two_lines, key_found}
use membrane_ai.Sort.{sort, sum_of}
use membrane_ai.Cli.Findings.{FileFinding, ScanResult}
use membrane_ai.Cli.Report.{build, rank_of}
use membrane_ai.Cli.Tables.{PathStat, RuleStat, max_detail_findings}
use membrane_ai.Cli.Report.Totals.{over, build-adds_up, build-unknown_severity, unknown_one}
use membrane_ai.Cli.Report.Detail.{omitted, build-detail}
use membrane_ai.Cli.Runner.{
  Entries, file, dir, nil, cons, run_root, is_blocking, is_warning, scan_one, walk, file_before,
  count_severities, finish,
}
use membrane_ai.Cli.Excerpt.{PathLib, is_binary, ext, masked_excerpt, clip, located}
use membrane_ai.Cli.Runner.Counted
use membrane_ai.Cli.Command.{exit_of_scan, exit_fail}
use membrane_ai.Cli.Command.Exit.{exit_of_scan_iff}

run : Unit {0}
unfolding bytes ◌==◌ trim_space contains_str lookup is_binary ext masked_excerpt clip located
    scan_one walk sort file_before count_severities finish run_root Scan.run secret_detect
    risky_detect secret_mask split_lines
run = tt

abbrev found : FileFinding
found = record {
  file = bytes "src/main.go";
  line = pos 2;
  rule = bytes "aws-access-key-id";
  severity = blocking;
  message = bytes "rotate it";
  excerpt = bytes "+[MASKED]";
}

abbrev noted : FileFinding
noted = record found { file = bytes "README"; severity = warning; rule = bytes "style" }

abbrev scanned : ScanResult
scanned = record {
  root = bytes ".";
  files_scanned = 2;
  files_skipped = 1;
  findings = noted ∷ found ∷ [];
  blocking = 1;
  warnings = 1;
  infos = 0;
}

abbrev same_dir : Str → Str
same_dir s = bytes "."

build-adds_up_example :
    ((build same_dir scanned (pos 1)).blocking
        + (build same_dir scanned (pos 1)).warnings
        + (build same_dir scanned (pos 1)).infos
      ≡ 2)
    × (sum_of (λ (r : RuleStat). r.count) (build same_dir scanned (pos 1)).by_rule ≡ 2)
    × (sum_of (λ (d : PathStat). d.blocking) (build same_dir scanned (pos 1)).by_dir
        ≡ (build same_dir scanned (pos 1)).blocking)
    × (sum_of (λ (d : PathStat). d.warnings) (build same_dir scanned (pos 1)).by_dir
        ≡ (build same_dir scanned (pos 1)).warnings)
    × (sum_of (λ (d : PathStat). d.infos) (build same_dir scanned (pos 1)).by_dir
        ≡ (build same_dir scanned (pos 1)).infos)
build-adds_up_example = build-adds_up same_dir scanned (pos 1)

build-unknown_severity_example :
    sum_of (λ (d : PathStat). d.weighted) (build same_dir scanned (pos 1)).by_dir
    ≡ (build same_dir scanned (pos 1)).debt_weighted + over unknown_one scanned.findings
build-unknown_severity_example = build-unknown_severity same_dir scanned (pos 1)

build-detail_example :
    (length (build same_dir scanned (pos 1)).findings ≤ max_detail_findings)
    × ((build same_dir scanned (pos 1)).truncated ≡ length (omitted scanned))
    × ((g : FileFinding → ℕ)
        → sum_of g (build same_dir scanned (pos 1)).findings + sum_of g (omitted scanned)
          ≡ sum_of g scanned.findings)
    × All
        (λ shown. All (λ cut. rank_of cut ≤ rank_of shown) (omitted scanned))
        (build same_dir scanned (pos 1)).findings
build-detail_example = build-detail same_dir scanned (pos 1)

-- Paths are one byte a rune, and are shown as they are.
abbrev paths : PathLib
paths = record {
  rel = λ base path. some path;
  to_slash = λ s. s;
  parent = λ s. bytes ".";
  runes = λ s. s;
  from_runes = λ s. s;
}

abbrev entries : Entries
entries =
    cons (file (bytes "a/k.go") (bytes "k.go") (some 8) (some two_lines))
      (cons (dir (bytes "a/dist") (bytes "dist") nil) nil)

abbrev tree_result : ScanResult
tree_result = record {
  root = bytes "a";
  files_scanned = 1;
  files_skipped = 0;
  findings =
      record {
        file = bytes "a/k.go";
        line = pos 2;
        rule = key_found.rule;
        severity = blocking;
        message = key_found.message;
        excerpt = bytes "+AKIA";
      }
      ∷ [];
  blocking = 1;
  warnings = 0;
  infos = 0;
}

tree_scanned :
    run_root paths lib background 100 (bytes "a") (dir (bytes "a") (bytes "a") entries)
    ≡ ok tree_result
unfolding run
tree_scanned = refl

exit_of_scan_iff_example :
    ((exit_of_scan (λ res. true) (bytes "blocking") (ok tree_result) ≡ exit_fail)
      ↔ (0 < Counted.over is_blocking tree_result))
    × ((exit_of_scan (λ res. true) (bytes "warning") (ok tree_result) ≡ exit_fail)
        ↔ (0 < Counted.over is_blocking tree_result + Counted.over is_warning tree_result))
exit_of_scan_iff_example =
    exit_of_scan_iff paths lib background 100 (bytes "a") (dir (bytes "a") (bytes "a") entries)
      tree_result (λ res. true) tree_scanned refl
