-- ===== src/Cli/Report/Totals.antt =====
-- The tables of a report add up to its totals.
use membrane_ai.Base.{
  ℕ, ◌+◌, ◌*◌, ◌≡◌, refl, ◌∙◌, List, [], ◌∷◌, Str, length, take, ltb, arith, Bool-cases, inl, inr,
}
use membrane_ai.Scan.{Severity}
use membrane_ai.Orchestrator.Verdict.{Time}
use membrane_ai.Sort.{sort, drop, sum_of, sum_of-append, sum_of-split, sum_of-sort}
use membrane_ai.Cli.Findings.{FileFinding, ScanResult}
use membrane_ai.Cli.Report.{build}
use membrane_ai.Cli.Tables.{
  RuleStat, PathStat, Tally, no_tally, update, count_path, new_path, tally_one, tally_all, values,
  blocking_one, warning_one, info_one, weight_of, other_dirs, cap_dirs, sort_dirs, sort_rules,
  max_dir_rows, count_rule, rule_before, path_before,
}

-- A measure of the findings by their severity.
abbrev pub over : (Severity → ℕ) → List FileFinding → ℕ
over d fs = sum_of (λ (f : FileFinding). d f.severity) fs

-- An update that adds to a measure adds as much to its sum.
sum_of-update {ℓ} :
    {V : Type ℓ} (g : V → ℕ) (n : ℕ) (key : Str) (fresh : V) (change : V → V) (m : List (Str × V))
    → g fresh ≡ 0
    → ((v : V) → g (change v) ≡ g v + n)
    → sum_of g (values (update key fresh change m)) ≡ sum_of g (values m) + n
unfolding update
sum_of-update g n key fresh change [] z h = omega (arith, h fresh, z)
sum_of-update g n key fresh change ((k, v) ∷ m) z h =
    ground (arith, h v, sum_of-update g n key fresh change m z h)

-- A counter of the paths, with what a finding of each severity adds to it.
record IsCounter (g : PathStat → ℕ) (d : Severity → ℕ) : Type 0 where
  fresh : (name : Str) → g (new_path name) ≡ 0
  counts : (s : Severity) (v : PathStat) → g (count_path s v) ≡ g v + d s

tally_all-dirs :
    (g : PathStat → ℕ) (d : Severity → ℕ) (dir : Str → Str) (t : Tally) (fs : List FileFinding)
    → IsCounter g d
    → sum_of g (values (tally_all dir t fs).dirs) ≡ sum_of g (values t.dirs) + over d fs
unfolding tally_all tally_one
tally_all-dirs g d dir t [] c = omega arith
tally_all-dirs g d dir t (f ∷ fs) c = omega (
  arith,
  tally_all-dirs g d dir (tally_one dir t f) fs c,
  sum_of-update g (d f.severity) (dir f.file) (new_path (dir f.file)) (count_path f.severity) t.dirs
      (c.fresh (dir f.file)) (c.counts f.severity),
)

tally_all-rules :
    (dir : Str → Str) (t : Tally) (fs : List FileFinding)
    → sum_of (λ (r : RuleStat). r.count) (values (tally_all dir t fs).rules)
      ≡ sum_of (λ (r : RuleStat). r.count) (values t.rules) + length fs
unfolding tally_all tally_one
tally_all-rules dir t [] = omega arith
tally_all-rules dir t (f ∷ fs) = omega (
  arith,
  tally_all-rules dir (tally_one dir t f) fs,
  sum_of-update (λ (r : RuleStat). r.count) 1 f.rule
      (record { rule = f.rule; severity = f.severity; count = 0 }) count_rule t.rules refl
      (λ r. refl),
)

-- The three totals.
tally_all-counts :
    (dir : Str → Str) (t : Tally) (fs : List FileFinding)
    → ((tally_all dir t fs).blocking ≡ t.blocking + over blocking_one fs)
      × ((tally_all dir t fs).warnings ≡ t.warnings + over warning_one fs)
      × ((tally_all dir t fs).infos ≡ t.infos + over info_one fs)
unfolding tally_all tally_one
tally_all-counts dir t [] = (omega arith, omega arith, omega arith)
tally_all-counts dir t (f ∷ fs) =
    let (b, w, i) = tally_all-counts dir (tally_one dir t f) fs in
    (omega (arith, b), omega (arith, w), omega (arith, i))

-- A finding whose severity is none of the constants.
abbrev pub unknown_one : Severity → ℕ
unknown_one (Severity.other s) = 1
unknown_one _ = 0

one_each : (s : Severity) → blocking_one s + warning_one s + info_one s ≡ 1
one_each s = ground arith

weight_of-parts :
    (s : Severity)
    → weight_of s ≡ 5 * blocking_one s + 2 * warning_one s + info_one s + unknown_one s
unfolding weight_of
weight_of-parts s = ground arith

over-length :
    (fs : List FileFinding)
    → over blocking_one fs + over warning_one fs + over info_one fs ≡ length fs
over-length [] = omega arith
over-length (f ∷ fs) = omega (arith, one_each f.severity, over-length fs)

over-weight_of :
    (fs : List FileFinding)
    → over weight_of fs
      ≡ 5 * over blocking_one fs + 2 * over warning_one fs + over info_one fs + over unknown_one fs
over-weight_of [] = omega arith
over-weight_of (f ∷ fs) = omega (arith, weight_of-parts f.severity, over-weight_of fs)

-- The row of the other directories keeps what the cap cuts off.
sum_of-cap_dirs :
    (g : PathStat → ℕ) (out : List PathStat)
    → ((ds : List PathStat) → g (other_dirs ds) ≡ sum_of g ds)
    → sum_of g (cap_dirs out) ≡ sum_of g out
unfolding cap_dirs
sum_of-cap_dirs g out h = elim (Bool-cases (ltb max_dir_rows (length out))) [
  | inl long ↦ rw long (
      omega (
        arith,
        sum_of-append g (take max_dir_rows out) (other_dirs (drop max_dir_rows out) ∷ []),
        h (drop max_dir_rows out),
        sum_of-split g max_dir_rows out,
      ))
  | inr short ↦ rw short refl
]

sum_of-sort_dirs :
    (g : PathStat → ℕ) (m : List (Str × PathStat))
    → ((ds : List PathStat) → g (other_dirs ds) ≡ sum_of g ds)
    → sum_of g (sort_dirs m) ≡ sum_of g (values m)
unfolding sort_dirs
sum_of-sort_dirs g m h =
    sum_of-cap_dirs g (sort path_before (values m)) h ∙ sum_of-sort path_before g (values m)

module _ (dir : Str → Str) (res : ScanResult) (at : Time) where
  dirs-over :
      (g : PathStat → ℕ) (d : Severity → ℕ)
      → IsCounter g d
      → ((ds : List PathStat) → g (other_dirs ds) ≡ sum_of g ds)
      → sum_of g (build dir res at).by_dir ≡ over d res.findings
  unfolding build
  dirs-over g d c h =
      sum_of-sort_dirs g (tally_all dir no_tally res.findings).dirs h
      ∙ tally_all-dirs g d dir no_tally res.findings c
      ∙ omega arith

  -- Nothing is dropped silently. The totals by severity add up to the number of findings, the rule
  -- table counts every finding, and the rows of the directories, the one for the others included,
  -- add up to the totals.
  pub build-adds_up :
      ((build dir res at).blocking + (build dir res at).warnings + (build dir res at).infos
        ≡ length res.findings)
      × (sum_of (λ (r : RuleStat). r.count) (build dir res at).by_rule ≡ length res.findings)
      × (sum_of (λ (d : PathStat). d.blocking) (build dir res at).by_dir
          ≡ (build dir res at).blocking)
      × (sum_of (λ (d : PathStat). d.warnings) (build dir res at).by_dir
          ≡ (build dir res at).warnings)
      × (sum_of (λ (d : PathStat). d.infos) (build dir res at).by_dir ≡ (build dir res at).infos)
  unfolding build sort_rules count_path
  build-adds_up =
      let (b, w, i) = tally_all-counts dir no_tally res.findings in
      (
        omega (arith, b, w, i, over-length res.findings),
        sum_of-sort rule_before (λ (r : RuleStat). r.count)
              (values (tally_all dir no_tally res.findings).rules)
            ∙ omega (arith, tally_all-rules dir no_tally res.findings),
        dirs-over (λ d. d.blocking) blocking_one
              (record { fresh = λ n. refl; counts = λ s v. refl }) (λ ds. refl)
            ∙ omega (arith, b),
        dirs-over (λ d. d.warnings) warning_one (record { fresh = λ n. refl; counts = λ s v. refl })
              (λ ds. refl)
            ∙ omega (arith, w),
        dirs-over (λ d. d.infos) info_one (record { fresh = λ n. refl; counts = λ s v. refl })
              (λ ds. refl)
            ∙ omega (arith, i),
      )

  -- The tables weigh a finding of unknown severity as a warning, but the debt score and the grade
  -- weigh it as information: the weights of the directories exceed the debt by one for each.
  pub build-unknown_severity :
      sum_of (λ (d : PathStat). d.weighted) (build dir res at).by_dir
      ≡ (build dir res at).debt_weighted + over unknown_one res.findings
  unfolding build count_path
  build-unknown_severity =
      let (b, w, i) = tally_all-counts dir no_tally res.findings in
      dirs-over (λ d. d.weighted) weight_of (record { fresh = λ n. refl; counts = λ s v. refl })
        (λ ds. refl)
      ∙ omega (arith, b, w, i, over-weight_of res.findings)
