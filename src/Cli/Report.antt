-- ===== src/Cli/Report.antt =====
-- clients/cli/internal/report/report.go: the grade of a scan, and the whole report. A score is a
-- fraction: a float64 division is rounded correctly, so on counts below 2^46 its comparison with a
-- threshold is the one made here.
pub mod Totals
pub mod Detail
pub mod Grades
use membrane_ai.Base.{
  ℕ, zero, suc, ◌+◌, ◌-◌, ◌*◌, Bool, true, false, not, List, [], ◌∷◌, ◌++◌, map, Str, bytes, ◌==◌,
  length, take, ltb, eqb, if◌then◌else◌,
}
use membrane_ai.Base.Int.{ℤ, pos, negsuc}
use membrane_ai.Base.Decimal.{decimal}
use membrane_ai.Scan.{Severity, info, warning, blocking}
use membrane_ai.Orchestrator.Verdict.{Time}
use membrane_ai.Sort.{str_lt, sort, drop, sum_of, lt_int}
use membrane_ai.Cli.Findings.{FileFinding, ScanResult}
use membrane_ai.Cli.Tables.{
  weight_blocking, weight_warning, weight_info, grade_b, grade_c, grade_d, min_grade_sample,
  max_detail_findings, max_dir_rows, max_top_files, RuleStat, PathStat, weight_of, severity_rank,
  update, blocking_one, warning_one, info_one, count_path, new_path, Tally, no_tally, count_rule,
  tally_one, tally_all, values, rule_before, sort_rules, path_before, other_dirs, cap_dirs,
  sort_dirs, sort_files,
}

-- The comparison of a score, weight over sample, with a threshold.
abbrev pub score_below : ℕ → ℕ → ℕ → Bool
score_below weighted sample threshold = ltb (100 * weighted) (threshold * sample)

-- `gradeOf`
unfoldable pub grade_of : ℕ → ℕ → Str
grade_of weighted files_scanned =
    if eqb files_scanned 0
    then if eqb weighted 0 then bytes "—" else bytes "F"
    else let sample =
        if ltb files_scanned min_grade_sample then min_grade_sample else files_scanned in
      if eqb weighted 0
      then bytes "A"
      else if score_below weighted sample grade_b
      then bytes "B"
      else if score_below weighted sample grade_c
      then bytes "C"
      else if score_below weighted sample grade_d
      then bytes "D"
      else bytes "F"

-- `scoringLegend`
unfoldable pub scoring_legend : Str
scoring_legend =
    bytes "Weights: blocking ×"
    ++ decimal weight_blocking
    ++ bytes " · warning ×"
    ++ decimal weight_warning
    ++ bytes " · info ×"
    ++ decimal weight_info
    ++ bytes ". Grades: A = 0 · B < "
    ++ decimal grade_b
    ++ bytes " · C < "
    ++ decimal grade_c
    ++ bytes " · D < "
    ++ decimal grade_d
    ++ bytes " · F ≥ "
    ++ decimal grade_d
    ++ bytes ". Scans under "
    ++ decimal min_grade_sample
    ++ bytes " files are graded against a "
    ++ decimal min_grade_sample
    ++ bytes "-file floor."

abbrev pub rank_of : FileFinding → ℕ
rank_of f = severity_rank f.severity

-- The order of the detail section: by severity, the gravest first, then by file and line.
unfoldable pub finding_before : FileFinding → FileFinding → Bool
unfolding str_lt
finding_before a b =
    if not (eqb (rank_of a) (rank_of b))
    then ltb (rank_of b) (rank_of a)
    else if not (a.file == b.file)
    then str_lt a.file b.file
    else lt_int a.line b.line

-- The debt score is `debt_weighted` per hundred of `debt_files`, and 0 where there is no file.
pub record Report : Type 0 where
  pub root : Str
  pub generated_at : Time
  pub files_scanned : ℕ
  pub files_skipped : ℕ
  pub total : ℕ
  pub blocking : ℕ
  pub warnings : ℕ
  pub infos : ℕ
  pub affected_files : ℕ
  pub debt_weighted : ℕ
  pub debt_files : ℕ
  pub grade : Str
  pub legend : Str
  pub by_rule : List RuleStat
  pub by_dir : List PathStat
  pub top_files : List PathStat
  pub findings : List FileFinding
  pub truncated : ℕ

-- `Build`
unfoldable pub build : (Str → Str) → ScanResult → Time → Report
unfolding tally_all sort_rules sort_dirs sort_files grade_of finding_before
build dir res generated_at =
    let t = tally_all dir no_tally res.findings in
    let weighted =
      weight_blocking * t.blocking + weight_warning * t.warnings + weight_info * t.infos in
    let detail = sort finding_before res.findings in
    let long = ltb max_detail_findings (length detail) in
    record {
      root = res.root;
      generated_at = generated_at;
      files_scanned = res.files_scanned;
      files_skipped = res.files_skipped;
      total = length res.findings;
      blocking = t.blocking;
      warnings = t.warnings;
      infos = t.infos;
      affected_files = length t.files;
      debt_weighted = weighted;
      debt_files = res.files_scanned;
      grade = grade_of weighted res.files_scanned;
      legend = scoring_legend;
      by_rule = sort_rules t.rules;
      by_dir = sort_dirs t.dirs;
      top_files = sort_files t.files;
      findings = if long then take max_detail_findings detail else detail;
      truncated = if long then length detail - max_detail_findings else 0;
    }
