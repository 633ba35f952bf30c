-- ===== src/Cli/Excerpt.antt =====
-- clients/cli/internal/runner/runner.go: what is shown of a line, and the kind of a file by its name
-- and its head. Packages filepath and utf8 are a parameter.
use mathlib.Core.List.{reverse}
use membrane_ai.Base.{
  ℕ, zero, suc, Bool, ◌||◌, Option, none, some, List, [], ◌∷◌, ◌++◌, map, Str, bytes, trim_space,
  any, length, take, ltb, eqb, if◌then◌else◌,
}
use membrane_ai.Base.Int.{ℤ, pos, negsuc}
use membrane_ai.Scan
use membrane_ai.Scan.{ScanLib, Detector, masked_by, default_detectors}
use membrane_ai.Cli.Findings.{FileFinding}

abbrev pub max_excerpt_runes : ℕ
max_excerpt_runes = 160

-- `filepath.Rel` (none on an error), `filepath.ToSlash` and `filepath.Dir`, `[]rune(s)`, and
-- `string` of runes.
pub record PathLib : Type 0 where
  pub rel : Str → Str → Option Str
  pub to_slash : Str → Str
  pub parent : Str → Str
  pub runes : Str → List ℕ
  pub from_runes : List ℕ → Str

-- `isBinary`
unfoldable pub is_binary : Str → Bool
is_binary content = any (eqb 0) (take 8192 content)

-- `filepath.Ext` of a path in reverse: what follows is the suffix so far.
unfoldable pub ext_from : Str → Str → Str
ext_from suffix [] = []
ext_from suffix (c ∷ before) =
    let more = ext_from (c ∷ suffix) before in
    if eqb c b'.' then c ∷ suffix else if eqb c b'/' then [] else more

-- `filepath.Ext`
unfoldable pub ext : Str → Str
unfolding ext_from
ext path = ext_from [] (reverse path)

-- The language of a missing extension is the empty string.
abbrev pub or_empty : Option Str → Str
or_empty none = []
or_empty (some s) = s

-- `lines[n-1]`, if there is such a line.
abbrev line_number : List Str → ℕ → Option Str
line_number [] n = none
line_number (line ∷ lines) zero = none
line_number (line ∷ lines) (suc zero) = some line
line_number (line ∷ lines) (suc (suc n)) = line_number lines (suc n)

-- The loop of `maskedExcerpt` over the maskers.
unfoldable pub mask_line : List Detector → Str → Str
mask_line [] line = line
mask_line (d ∷ rest) line = mask_line rest (masked_by d.mask line)

-- `' '` for tabs, CR and terminal escapes.
abbrev printable : ℕ → ℕ
printable r = if ltb r 0x20 || eqb r 0x7f then 32 else r

module _ (path_lib : PathLib) where
  -- `strings.TrimSpace(strings.Map(…, line))`, and the cap.
  unfoldable pub clip : Str → Str
  clip line =
      let trimmed = trim_space (path_lib.from_runes (map printable (path_lib.runes line))) in
      if ltb max_excerpt_runes (length (path_lib.runes trimmed))
      then path_lib.from_runes (take max_excerpt_runes (path_lib.runes trimmed)) ++ bytes "…"
      else trimmed

  abbrev excerpt_of : List Detector → Option Str → Str
  excerpt_of detectors none = []
  excerpt_of detectors (some line) = clip (mask_line detectors line)

  -- `maskedExcerpt`
  unfoldable pub masked_excerpt : List Str → ℤ → List Detector → Str
  unfolding mask_line
  masked_excerpt lines (negsuc n) detectors = []
  masked_excerpt lines (pos n) detectors = excerpt_of detectors (line_number lines n)

  -- The loop of `scanOne` over the findings.
  unfoldable pub located : Str → List Str → List Detector → List Scan.Finding → List FileFinding
  located rel lines detectors [] = []
  located rel lines detectors (f ∷ fs) =
      record {
        file = rel;
        line = f.line;
        rule = f.rule;
        severity = f.severity;
        message = f.message;
        excerpt = masked_excerpt lines f.line detectors;
      }
      ∷ located rel lines detectors fs
