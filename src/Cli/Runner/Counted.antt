-- ===== src/Cli/Runner/Counted.antt =====
-- What a scan counts, and the exit code that follows from it.
use mathlib.Core.Path.{subst}
use membrane_ai.Base.{
  ℕ, ◌+◌, ◌≡◌, refl, ap, ◌∙◌, Option, none, some, List, [], ◌∷◌, Str, any, ◌==◌, arith, Bool-cases,
  inl, inr, if◌then◌else◌,
}
use membrane_ai.Base.Context.{Context}
use membrane_ai.Errs.{Result, ok, err, bind_ok}
use membrane_ai.Scan
use membrane_ai.Scan.{ScanLib, Severity, default_detectors}
use membrane_ai.Sort.{sort, sum_of}
use membrane_ai.Cli.Findings.{FileFinding, ScanResult}
use membrane_ai.Cli.Runner.{
  Entry, Entries, file, dir, broken, nil, cons, skip_dirs, skipped, collect, scan_one, walk,
  walk_all, file_before, count_severities, finish, is_blocking, is_warning, is_info, too_large,
  finished, no_result, run_root,
}
use membrane_ai.Cli.Excerpt.{PathLib, is_binary}

-- The files that a walk meets: those outside the directories that it skips.
mutual
  pub files_of : Entry → ℕ
  files_of (file path name size content) = 1
  files_of (dir path name entries) =
      let below = files_of_all entries in if any (λ d. d == name) skip_dirs then 0 else below
  files_of broken = 0

  pub files_of_all : Entries → ℕ
  files_of_all nil = 0
  files_of_all (cons entry entries) = files_of entry + files_of_all entries

abbrev pub visited : ScanResult → ℕ
visited res = res.files_scanned + res.files_skipped

-- The walk went over so many files more, and left the severity counters alone.
abbrev Went : ℕ → ScanResult → ScanResult → Type 0
Went n res out =
    (visited out ≡ visited res + n) × (out.blocking ≡ res.blocking) × (out.warnings ≡ res.warnings)

Went-skipped : (res out : ScanResult) → skipped res ≡ out → Went 1 res out
Went-skipped res out h = (ground (arith, h), ground (arith, h), ground (arith, h))

Went-same : (res out : ScanResult) → res ≡ out → Went 0 res out
Went-same res out h = (ground (arith, h), ground (arith, h), ground (arith, h))

ok_inj : (a b : ScanResult) → ◌≡◌ {A = Result ScanResult} (ok a) (ok b) → a ≡ b
ok_inj a b h = cc h

module _ (path_lib : PathLib) (lib : ScanLib) (ctx : Context) (rel_base : Str) where
  collect-visited :
      (rel content : Str) (res out : ScanResult) (answer : Result (List Scan.Finding × Str))
      → collect path_lib lib ctx rel_base rel content res answer ≡ ok out
      → Went 1 res out
  collect-visited rel content res out (err e) h = absurd (cc h)
  collect-visited rel content res out (ok (fs, masked)) h =
      (ground (arith, h), ground (arith, h), ground (arith, h))

  scan_one-visited :
      (path : Str) (content : Option Str) (res out : ScanResult)
      → scan_one path_lib lib ctx rel_base path content res ≡ ok out
      → Went 1 res out
  unfolding scan_one
  scan_one-visited path none res out h = Went-skipped res out (cc h)
  scan_one-visited path (some content) res out h = elim (Bool-cases (is_binary content)) [
    | inl binary ↦ Went-skipped res out (ok_inj _ _ (rw binary at h))
    | inr text ↦ collect-visited _ content res out _ (rw text at h)
  ]

  mutual
    unfolding walk files_of

    walk-visited :
        (max_size : ℕ) (entry : Entry) (res out : ScanResult)
        → walk path_lib lib ctx rel_base max_size entry res ≡ ok out
        → Went (files_of entry) res out
    walk-visited max_size (file path name size content) res out h =
        elim (Bool-cases (too_large max_size size)) [
          | inl large ↦ Went-skipped res out (ok_inj _ _ (rw large at h))
          | inr small ↦ scan_one-visited path content res out (rw small at h)
        ]
    walk-visited max_size (dir path name entries) res out h =
        elim (Bool-cases (any (λ d. d == name) skip_dirs)) [
          | inl skip ↦ rw skip (Went-same res out (ok_inj _ _ (rw skip at h)))
          | inr below ↦ rw below (walk_all-visited max_size entries res out (rw below at h))
        ]
    walk-visited max_size broken res out h = Went-same res out (cc h)

    walk_all-visited :
        (max_size : ℕ) (entries : Entries) (res out : ScanResult)
        → walk_all path_lib lib ctx rel_base max_size entries res ≡ ok out
        → Went (files_of_all entries) res out
    walk_all-visited max_size nil res out h = Went-same res out (cc h)
    walk_all-visited max_size (cons entry entries) res out h =
        let (mid, first, rest) =
          bind_ok (walk path_lib lib ctx rel_base max_size entry res)
            (walk_all path_lib lib ctx rel_base max_size entries) h in
        let (v, b, w) = walk-visited max_size entry res mid first in
        let (v', b', w') = walk_all-visited max_size entries mid out rest in
        (omega (arith, v, v'), b' ∙ b, w' ∙ w)

-- What the findings of a result count, by a measure of their severity.
abbrev pub over : (Severity → ℕ) → ScanResult → ℕ
over d res = sum_of (λ (f : FileFinding). d f.severity) res.findings

count_severities-counts :
    (fs : List FileFinding) (res : ScanResult)
    → ((count_severities fs res).blocking
        ≡ res.blocking + sum_of (λ (f : FileFinding). is_blocking f.severity) fs)
      × ((count_severities fs res).warnings
          ≡ res.warnings + sum_of (λ (f : FileFinding). is_warning f.severity) fs)
      × ((count_severities fs res).findings ≡ res.findings)
      × (visited (count_severities fs res) ≡ visited res)
unfolding count_severities
count_severities-counts [] res = (omega arith, omega arith, refl, refl)
count_severities-counts (f ∷ fs) res =
    let (b, w, same, v) = count_severities-counts fs (record res {
      blocking = res.blocking + is_blocking f.severity;
      warnings = res.warnings + is_warning f.severity;
      infos = res.infos + is_info f.severity;
    }) in
    (omega (arith, b), omega (arith, w), same, v)

-- The counters of a result are those of its findings.
finish-counts :
    (res : ScanResult)
    → ((finish res).blocking ≡ res.blocking + over is_blocking (finish res))
      × ((finish res).warnings ≡ res.warnings + over is_warning (finish res))
      × (visited (finish res) ≡ visited res)
unfolding finish
finish-counts res =
    let sorted = sort file_before res.findings in
    let (b, w, same, v) = count_severities-counts sorted (record res { findings = sorted }) in
    (
      omega (arith, b, ap (sum_of (λ (f : FileFinding). is_blocking f.severity)) same),
      omega (arith, w, ap (sum_of (λ (f : FileFinding). is_warning f.severity)) same),
      v,
    )

-- A result whose counters are those of its findings, over so many files.
pub record IsCounted (files : ℕ) (res : ScanResult) : Type 0 where
  pub all_visited : visited res ≡ files
  pub blocking_counted : res.blocking ≡ over is_blocking res
  pub warnings_counted : res.warnings ≡ over is_warning res

finished-IsCounted :
    (files : ℕ) (root : Str) (r : Result ScanResult) (res : ScanResult)
    → ((out : ScanResult) → r ≡ ok out → Went files (no_result root) out)
    → finished r ≡ ok res
    → IsCounted files res
finished-IsCounted files root (err e) res h k = absurd (cc k)
finished-IsCounted files root (ok out) res h k =
    let (v, b, w) = h out refl in
    let (b', w', v') = finish-counts out in
    subst (IsCounted files) (ok_inj _ _ k) (record {
      all_visited = omega (arith, v, v');
      blocking_counted = omega (arith, b, b');
      warnings_counted = omega (arith, w, w');
    })

module _ (path_lib : PathLib) (lib : ScanLib) (ctx : Context) where
  -- A scan that returns a result has met every file outside the directories that it skips, and has
  -- either scanned it or counted it as skipped; and its counters of blocking findings and of warnings
  -- are those of the findings that it lists.
  pub run_root-IsCounted :
      (max_size : ℕ) (root : Str) (entry : Entry) (res : ScanResult)
      → run_root path_lib lib ctx max_size root entry ≡ ok res
      → IsCounted (files_of entry) res
  unfolding run_root files_of
  run_root-IsCounted max_size root (file path name size content) res h =
      let base = path_lib.parent root in
      finished-IsCounted 1 base (scan_one path_lib lib ctx base root content (no_result base)) res
        (λ out. scan_one-visited path_lib lib ctx base root content (no_result base) out) h
  run_root-IsCounted max_size root (dir path name entries) res h =
      finished-IsCounted (files_of (dir path name entries)) root
        (walk path_lib lib ctx root max_size (dir path name entries) (no_result root)) res
        (λ out.
          walk-visited path_lib lib ctx root max_size (dir path name entries) (no_result root) out)
        h
  run_root-IsCounted max_size root broken res h =
      finished-IsCounted 0 root (walk path_lib lib ctx root max_size broken (no_result root)) res
        (λ out. walk-visited path_lib lib ctx root max_size broken (no_result root) out) h
