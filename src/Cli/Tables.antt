-- ===== src/Cli/Tables.antt =====
-- clients/cli/internal/report/report.go: the tables of a report. The maps of `Build` are association
-- lists, whose order the sorts undo. `path.Dir` is a parameter.
use membrane_ai.Base.{
  ℕ, ◌+◌, Bool, not, List, [], ◌∷◌, ◌++◌, map, Str, bytes, ◌==◌, length, take, ltb, eqb,
  if◌then◌else◌,
}
use membrane_ai.Scan.{Severity, info, warning, blocking}
use membrane_ai.Sort.{str_lt, sort, drop, sum_of}
use membrane_ai.Cli.Findings.{FileFinding}

abbrev pub weight_blocking : ℕ
weight_blocking = 5

abbrev pub weight_warning : ℕ
weight_warning = 2

abbrev pub weight_info : ℕ
weight_info = 1

abbrev pub grade_b : ℕ
grade_b = 5

abbrev pub grade_c : ℕ
grade_c = 15

abbrev pub grade_d : ℕ
grade_d = 40

abbrev pub min_grade_sample : ℕ
min_grade_sample = 10

abbrev pub max_detail_findings : ℕ
max_detail_findings = 200

abbrev pub max_dir_rows : ℕ
max_dir_rows = 15

abbrev pub max_top_files : ℕ
max_top_files = 10

pub record RuleStat : Type 0 where
  pub rule : Str
  pub severity : Severity
  pub count : ℕ

-- `DirStat` and `FileStat`: the aggregate of a directory or of a file, under its name.
pub record PathStat : Type 0 where
  pub name : Str
  pub blocking : ℕ
  pub warnings : ℕ
  pub infos : ℕ
  pub weighted : ℕ

-- `weightOf`
unfoldable pub weight_of : Severity → ℕ
weight_of blocking = weight_blocking
weight_of info = weight_info
weight_of warning = weight_warning
weight_of (Severity.other s) = weight_warning

-- `severityRank`
unfoldable pub severity_rank : Severity → ℕ
severity_rank blocking = 3
severity_rank info = 1
severity_rank warning = 2
severity_rank (Severity.other s) = 2

-- The update of an entry through its pointer, after `if !ok` has put a new one into the map.
unfoldable pub update {ℓ} : {V : Type ℓ} → Str → V → (V → V) → List (Str × V) → List (Str × V)
update key fresh change [] = (key, change fresh) ∷ []
update key fresh change (entry ∷ rest) =
    let later = entry ∷ update key fresh change rest in
    if entry.0 == key then (entry.0, change entry.1) ∷ rest else later

-- The severity counters: the default case of the `switch` counts as information.
abbrev pub blocking_one : Severity → ℕ
blocking_one blocking = 1
blocking_one _ = 0

abbrev pub warning_one : Severity → ℕ
warning_one warning = 1
warning_one _ = 0

abbrev pub info_one : Severity → ℕ
info_one blocking = 0
info_one warning = 0
info_one _ = 1

-- `Weighted += w`, and the counter of the severity.
unfoldable pub count_path : Severity → PathStat → PathStat
unfolding weight_of
count_path s d = record d {
  weighted = d.weighted + weight_of s;
  blocking = d.blocking + blocking_one s;
  warnings = d.warnings + warning_one s;
  infos = d.infos + info_one s;
}

abbrev pub new_path : Str → PathStat
new_path name = record { name = name; blocking = 0; warnings = 0; infos = 0; weighted = 0 }

-- The variables of the loop of `Build`.
pub record Tally : Type 0 where
  pub rules : List (Str × RuleStat)
  pub dirs : List (Str × PathStat)
  pub files : List (Str × PathStat)
  pub blocking : ℕ
  pub warnings : ℕ
  pub infos : ℕ

abbrev pub no_tally : Tally
no_tally = record { rules = []; dirs = []; files = []; blocking = 0; warnings = 0; infos = 0 }

abbrev pub count_rule : RuleStat → RuleStat
count_rule r = record r { count = r.count + 1 }

-- One round of the loop.
unfoldable pub tally_one : (Str → Str) → Tally → FileFinding → Tally
unfolding update count_path
tally_one dir t f = record {
  rules =
      update f.rule (record { rule = f.rule; severity = f.severity; count = 0 }) count_rule t.rules;
  dirs = update (dir f.file) (new_path (dir f.file)) (count_path f.severity) t.dirs;
  files = update f.file (new_path f.file) (count_path f.severity) t.files;
  blocking = t.blocking + blocking_one f.severity;
  warnings = t.warnings + warning_one f.severity;
  infos = t.infos + info_one f.severity;
}

unfoldable pub tally_all : (Str → Str) → Tally → List FileFinding → Tally
unfolding tally_one
tally_all dir t [] = t
tally_all dir t (f ∷ fs) = tally_all dir (tally_one dir t f) fs

abbrev pub values {ℓ} : {V : Type ℓ} → List (Str × V) → List V
values m = map (λ entry. entry.1) m

-- The order of `sortRules`: by count, the highest first, then by name.
abbrev pub rule_before : RuleStat → RuleStat → Bool
rule_before a b = if not (eqb a.count b.count) then ltb b.count a.count else str_lt a.rule b.rule

-- `sortRules`
unfoldable pub sort_rules : List (Str × RuleStat) → List RuleStat
unfolding sort str_lt
sort_rules m = sort rule_before (values m)

-- The order of `sortDirs` and `sortFiles`: by weight, the heaviest first, then by name.
abbrev pub path_before : PathStat → PathStat → Bool
path_before a b =
    if not (eqb a.weighted b.weighted) then ltb b.weighted a.weighted else str_lt a.name b.name

-- The row for the directories that have no row of their own.
abbrev pub other_dirs : List PathStat → PathStat
other_dirs ds = record {
  name = bytes "(other directories)";
  blocking = sum_of (λ (d : PathStat). d.blocking) ds;
  warnings = sum_of (λ (d : PathStat). d.warnings) ds;
  infos = sum_of (λ (d : PathStat). d.infos) ds;
  weighted = sum_of (λ (d : PathStat). d.weighted) ds;
}

-- The end of `sortDirs`.
unfoldable pub cap_dirs : List PathStat → List PathStat
cap_dirs out =
    if ltb max_dir_rows (length out)
    then take max_dir_rows out ++ other_dirs (drop max_dir_rows out) ∷ []
    else out

-- `sortDirs`
unfoldable pub sort_dirs : List (Str × PathStat) → List PathStat
unfolding sort str_lt cap_dirs
sort_dirs m = cap_dirs (sort path_before (values m))

-- `sortFiles`
unfoldable pub sort_files : List (Str × PathStat) → List PathStat
unfolding sort str_lt
sort_files m =
    let out = sort path_before (values m) in
    if ltb max_top_files (length out) then take max_top_files out else out
