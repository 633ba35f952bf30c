-- ===== src/Cli/Runner.antt =====
-- clients/cli/internal/runner/runner.go: the scan of a file or of a tree of directories. The tree is
-- what the file system shows; packages filepath and utf8 are a parameter.
pub mod Counted
use mathlib.Core.List.{reverse}
use membrane_ai.Base.{
  ℕ, zero, suc, ◌+◌, ◌-◌, Bool, true, false, ◌||◌, Option, none, some, List, [], ◌∷◌, ◌++◌, map,
  Str, bytes, ◌==◌, trim_space, any, length, take, ltb, leb, eqb, if◌then◌else◌,
}
use membrane_ai.Base.Int.{ℤ, pos, negsuc, is_pos}
use membrane_ai.Base.Context.{Context}
use membrane_ai.Base.Maps.{lookup}
use membrane_ai.Errs.{wrapped, Result, ok, err, ◌>>=◌}
use membrane_ai.Scan
use membrane_ai.Scan.{ScanLib, Detector, masked_by, default_detectors}
use membrane_ai.Scan.Lines.{split_lines}
use membrane_ai.Sort.{str_lt, sort, lt_int}
use membrane_ai.Cli.Excerpt.{
  max_excerpt_runes, PathLib, is_binary, ext_from, ext, mask_line, clip, masked_excerpt, located,
  or_empty,
}
use membrane_ai.Cli.Findings.{FileFinding, ScanResult}

abbrev pub default_max_file_size : ℕ
default_max_file_size = 1048576

abbrev pub skip_dirs : List Str
skip_dirs =
    bytes ".git"
    ∷ bytes "node_modules"
    ∷ bytes "vendor"
    ∷ bytes ".venv"
    ∷ bytes "venv"
    ∷ bytes "dist"
    ∷ bytes "build"
    ∷ bytes "target"
    ∷ bytes "__pycache__"
    ∷ bytes ".task"
    ∷ bytes ".idea"
    ∷ bytes ".vscode"
    ∷ []

abbrev pub language_by_ext : List (Str × Str)
language_by_ext =
    (bytes ".go", bytes "go")
    ∷ (bytes ".py", bytes "python")
    ∷ (bytes ".js", bytes "javascript")
    ∷ (bytes ".ts", bytes "typescript")
    ∷ (bytes ".jsx", bytes "javascript")
    ∷ (bytes ".tsx", bytes "typescript")
    ∷ (bytes ".java", bytes "java")
    ∷ (bytes ".rb", bytes "ruby")
    ∷ (bytes ".php", bytes "php")
    ∷ (bytes ".cs", bytes "csharp")
    ∷ (bytes ".sql", bytes "sql")
    ∷ (bytes ".sh", bytes "shell")
    ∷ (bytes ".ps1", bytes "powershell")
    ∷ (bytes ".yaml", bytes "yaml")
    ∷ (bytes ".yml", bytes "yaml")
    ∷ (bytes ".tf", bytes "terraform")
    ∷ (bytes ".env", bytes "dotenv")
    ∷ []

-- The file system below a path. `size` is none where `d.Info()` fails, `content` where the file
-- cannot be read, and `broken` is an entry that the walk reports with an error.
mutual
  pub data Entry : Type 0 where
    file : (path name : Str) → (size : Option ℕ) → (content : Option Str) → Entry
    dir : (path name : Str) → Entries → Entry
    broken : Entry

  pub data Entries : Type 0 where
    nil : Entries
    cons : Entry → Entries → Entries

-- `if rerr != nil { rel = path }`
abbrev rel_or : Str → Option Str → Str
rel_or path none = path
rel_or path (some rel) = rel

abbrev pub skipped : ScanResult → ScanResult
skipped res = record res { files_skipped = res.files_skipped + 1 }

-- `ferr != nil || fi.Size() > maxSize`
abbrev too_large : ℕ → Option ℕ → Bool
too_large max_size none = true
too_large max_size (some n) = ltb max_size n

module _ (path_lib : PathLib) where
  module _ (lib : ScanLib) (ctx : Context) (rel_base : Str) where
    -- What `scanOne` does with the answer of the detectors.
    abbrev pub collect :
        Str → Str → ScanResult → Result (List Scan.Finding × Str) → Result ScanResult
    collect rel content res (err e) = err e
    collect rel content res (ok (fs, masked)) = ok (record res {
      files_scanned = res.files_scanned + 1;
      findings =
          res.findings ++ located path_lib rel (split_lines content) (default_detectors lib) fs;
    })

    -- `scanOne`
    unfoldable pub scan_one : Str → Option Str → ScanResult → Result ScanResult
    scan_one path none res = ok (skipped res)
    scan_one path (some content) res =
        let rel = path_lib.to_slash (rel_or path (path_lib.rel rel_base path)) in
        let language = or_empty (lookup (lib.to_lower (ext path)) language_by_ext) in
        if is_binary content
        then ok (skipped res)
        else collect rel content res (Scan.run ctx content language (default_detectors lib))

    -- The callback of `filepath.WalkDir` on the entries below a root, in their order.
    unfoldable mutual
      pub walk : ℕ → Entry → ScanResult → Result ScanResult
      walk max_size (file path name size content) res =
          if too_large max_size size then ok (skipped res) else scan_one path content res
      walk max_size (dir path name entries) res =
          let below = walk_all max_size entries res in
          if any (λ d. d == name) skip_dirs then ok res else below
      walk max_size broken res = ok res

      pub walk_all : ℕ → Entries → ScanResult → Result ScanResult
      walk_all max_size nil res = ok res
      walk_all max_size (cons entry entries) res =
          walk max_size entry res >>= walk_all max_size entries

-- The order of the findings: by file, then by line.
unfoldable pub file_before : FileFinding → FileFinding → Bool
unfolding str_lt
file_before a b = if a.file == b.file then lt_int a.line b.line else str_lt a.file b.file

-- The counters that the last loop of `Run` makes.
abbrev pub is_blocking : Scan.Severity → ℕ
is_blocking Scan.Severity.blocking = 1
is_blocking _ = 0

abbrev pub is_warning : Scan.Severity → ℕ
is_warning Scan.Severity.warning = 1
is_warning _ = 0

abbrev pub is_info : Scan.Severity → ℕ
is_info Scan.Severity.info = 1
is_info _ = 0

unfoldable pub count_severities : List FileFinding → ScanResult → ScanResult
count_severities [] res = res
count_severities (f ∷ fs) res = count_severities fs (record res {
  blocking = res.blocking + is_blocking f.severity;
  warnings = res.warnings + is_warning f.severity;
  infos = res.infos + is_info f.severity;
})

-- The end of `Run`.
unfoldable pub finish : ScanResult → ScanResult
unfolding sort file_before count_severities
finish res =
    let sorted = sort file_before res.findings in
    count_severities sorted (record res { findings = sorted })

abbrev pub no_result : Str → ScanResult
no_result root = record {
  root = root;
  files_scanned = 0;
  files_skipped = 0;
  findings = [];
  blocking = 0;
  warnings = 0;
  infos = 0;
}

abbrev pub finished : Result ScanResult → Result ScanResult
finished (err e) = err e
finished (ok res) = ok (finish res)

-- `maxSize := opts.MaxFileSize; if maxSize <= 0 { maxSize = DefaultMaxFileSize }`
abbrev pub max_size_of : ℤ → ℕ
max_size_of (pos zero) = default_max_file_size
max_size_of (pos (suc n)) = suc n
max_size_of (negsuc n) = default_max_file_size

module _ (path_lib : PathLib) (lib : ScanLib) (ctx : Context) where
  -- `Run` on the entry at the root. A file is scanned whatever its size.
  unfoldable pub run_root : ℕ → Str → Entry → Result ScanResult
  unfolding scan_one walk walk_all finish
  run_root max_size root (file path name size content) =
      let base = path_lib.parent root in
      finished (scan_one path_lib lib ctx base root content (no_result base))
  run_root max_size root (dir path name entries) =
      finished (walk path_lib lib ctx root max_size (dir path name entries) (no_result root))
  run_root max_size root broken =
      finished (walk path_lib lib ctx root max_size broken (no_result root))

  abbrev on_stat : ℕ → Str → Result Entry → Result ScanResult
  on_stat max_size root (err e) = err (wrapped (bytes "stat root: ") e)
  on_stat max_size root (ok entry) = run_root max_size root entry

  abbrev on_abs : ℕ → (Str → Result Entry) → Result Str → Result ScanResult
  on_abs max_size stat (err e) = err (wrapped (bytes "resolve root: ") e)
  on_abs max_size stat (ok root) = on_stat max_size root (stat root)

  -- `Run`, given what `filepath.Abs` and then `os.Stat` answer.
  unfoldable pub run_scan : ℤ → Result Str → (Str → Result Entry) → Result ScanResult
  unfolding run_root
  run_scan max_file_size abs stat = on_abs (max_size_of max_file_size) stat abs
