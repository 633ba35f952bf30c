-- ===== src/Cli/Report/Detail.antt =====
-- The caps of a report: how much is shown, and what the detail section leaves out.
use mathlib.Core.Path.{subst}
use membrane_ai.Base.{
  ℕ, suc, ◌+◌, ◌-◌, ◌≤◌, ◌≡◌, refl, sym, ap, ◌∙◌, List, [], ◌∷◌, Str, length, take, ltb, arith, All,
  length-take, length-append, Bool-cases, inl, inr, if◌then◌else◌,
}
use membrane_ai.Orchestrator.Verdict.{Time}
use membrane_ai.Sort.{sort, drop, sum_of, sum_of-split, sum_of-sort, IsByRank, sort-Falls, cut_low}
use membrane_ai.Cli.Findings.{FileFinding, ScanResult}
use membrane_ai.Cli.Report.{build, rank_of, finding_before}
use membrane_ai.Cli.Tables.{
  PathStat, no_tally, tally_all, values, cap_dirs, sort_dirs, sort_files, other_dirs,
  max_detail_findings, max_dir_rows, max_top_files, path_before,
}

finding_before-IsByRank : IsByRank rank_of finding_before
unfolding finding_before
finding_before-IsByRank = record {
  before = λ x y h. ground (arith, h);
  after = λ x y h. ground (arith, h);
}

-- A length is the sum of ones.
length-sum_of : (xs : List FileFinding) → length xs ≡ sum_of (λ x. 1) xs
length-sum_of [] = omega arith
length-sum_of (x ∷ xs) = omega (arith, length-sum_of xs)

-- The findings that the detail section leaves out.
abbrev pub omitted : ScanResult → List FileFinding
omitted res = drop max_detail_findings (sort finding_before res.findings)

length-drop : (n : ℕ) (xs : List FileFinding) → length (drop n xs) ≡ length xs - n
length-drop ℕ.zero xs = omega arith
length-drop (suc n) [] = omega arith
length-drop (suc n) (x ∷ xs) = omega (arith, length-drop n xs)

take-short : (n : ℕ) (xs : List FileFinding) → length xs ≤ n → take n xs ≡ xs
take-short ℕ.zero [] h = refl
take-short ℕ.zero (x ∷ xs) h = absurd (omega (arith, h))
take-short (suc n) [] h = refl
take-short (suc n) (x ∷ xs) h = ap (λ l. x ∷ l) (take-short n xs (omega (arith, h)))

cut_count : (n m : ℕ) → (if ltb m n then n - m else 0) ≡ n - m
cut_count n m = ground arith

module _ (dir : Str → Str) (res : ScanResult) (at : Time) where
  detail-take :
      (build dir res at).findings ≡ take max_detail_findings (sort finding_before res.findings)
  unfolding build
  detail-take =
      let detail = sort finding_before res.findings in
      elim (Bool-cases (ltb max_detail_findings (length detail))) [
        | inl long ↦ rw long refl
        | inr short ↦ rw short (sym (take-short max_detail_findings detail (ground (arith, short))))
      ]

  truncated-omitted : (build dir res at).truncated ≡ length (omitted res)
  unfolding build
  truncated-omitted =
      cut_count (length (sort finding_before res.findings)) max_detail_findings
      ∙ sym (length-drop max_detail_findings (sort finding_before res.findings))

  detail_sum :
      (g : FileFinding → ℕ)
      → sum_of g (build dir res at).findings + sum_of g (omitted res) ≡ sum_of g res.findings
  detail_sum g =
      let detail = sort finding_before res.findings in
      omega (
        arith,
        ap (sum_of g) detail-take,
        sum_of-split g max_detail_findings detail,
        sum_of-sort finding_before g res.findings,
      )

  -- The detail section shows at most 200 findings. It and the findings that it omits, whose number is
  -- reported, are together the findings of the scan: every measure adds up. No omitted finding is
  -- graver than a finding that is shown, so no blocking one gives way to a lighter one.
  pub build-detail :
      (length (build dir res at).findings ≤ max_detail_findings)
      × ((build dir res at).truncated ≡ length (omitted res))
      × ((g : FileFinding → ℕ)
          → sum_of g (build dir res at).findings + sum_of g (omitted res) ≡ sum_of g res.findings)
      × All
          (λ shown. All (λ cut. rank_of cut ≤ rank_of shown) (omitted res))
          (build dir res at).findings
  build-detail =
      let detail = sort finding_before res.findings in
      (
        omega (arith, ap length detail-take, length-take max_detail_findings detail),
        truncated-omitted,
        detail_sum,
        subst (All (λ shown. All (λ cut. rank_of cut ≤ rank_of shown) (omitted res)))
            (sym detail-take)
            (cut_low rank_of max_detail_findings detail
              (sort-Falls rank_of finding_before finding_before-IsByRank res.findings)),
      )

  cap_dirs_bound : (out : List PathStat) → length (cap_dirs out) ≤ 16
  unfolding cap_dirs
  cap_dirs_bound out = ground (
    arith,
    length-append (take max_dir_rows out) (other_dirs (drop max_dir_rows out) ∷ []),
    length-take max_dir_rows out,
  )

  sort_files_bound : (m : List (Str × PathStat)) → length (sort_files m) ≤ max_top_files
  unfolding sort_files
  sort_files_bound m = ground (arith, length-take max_top_files (sort path_before (values m)))

  -- The tables stay short: at most 15 directories and the row for the others, and 10 files.
  pub build_bounds :
      (length (build dir res at).by_dir ≤ 16)
      × (length (build dir res at).top_files ≤ max_top_files)
  unfolding build sort_dirs
  build_bounds =
      let t = tally_all dir no_tally res.findings in
      (cap_dirs_bound (sort path_before (values t.dirs)), sort_files_bound t.files)
