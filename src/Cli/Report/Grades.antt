-- ===== src/Cli/Report/Grades.antt =====
-- What a grade says.
use membrane_ai.Base.{ℕ, ◌*◌, ◌≤◌, ◌≡◌, ◌≢◌, ◌↔◌, ◌⊎◌, bytes, ltb, arith, if◌then◌else◌}
use membrane_ai.Cli.Report.{grade_of}
use membrane_ai.Cli.Tables.{min_grade_sample}

-- The number of files that the weight is spread over.
abbrev pub sample_of : ℕ → ℕ
sample_of files = if ltb files min_grade_sample then min_grade_sample else files

-- The two ends of the scale. Grade A is given exactly to a scan of some files with no finding that
-- weighs anything, and grade F exactly to a weight of at least 40 for every 100 files, of which ten
-- are counted at least, or to findings without scanned files.
pub grade_of_ends :
    (weighted files : ℕ)
    → ((grade_of weighted files ≡ bytes "A") ↔ ((files ≢ 0) × (weighted ≡ 0)))
      × ((grade_of weighted files ≡ bytes "F") ↔ (
          ((files ≢ 0) × (weighted ≢ 0) × (40 * sample_of files ≤ 100 * weighted))
          ⊎ ((files ≡ 0) × (weighted ≢ 0))))
unfolding grade_of bytes
grade_of_ends weighted files = (ground arith, ground arith)
