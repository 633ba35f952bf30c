-- ===== src/Analyzer/Analyze/Chain.antt =====
-- What the chain of detectors reports and masks.
use mathlib.Core.List.{append_assoc, append-nil}
use membrane_ai.Base.{◌≡◌, ◌↔◌, sym, ap, ◌∙◌, inl, inr, List, [], ◌∷◌, ◌++◌, Str}
use membrane_ai.Base.Context.{Context}
use membrane_ai.Errs.{ok, Result-cases}
use membrane_ai.Analyzer.Analyze.{
  Input, Finding, Analysis, Detector, after, masked_by, run_chain, analyze_diff,
}

-- The maskers of the chain, one after the other.
abbrev pub mask_all : List Detector → Str → Str
mask_all [] masked = masked
mask_all (det ∷ dets) masked = mask_all dets (masked_by det.mask masked)

-- Each detector, on the input as it came, has found what is listed for it.
abbrev pub Found : Context → Input → List Detector → List (List Finding) → Type 0
Found ctx input [] [] = Unit
Found ctx input (det ∷ dets) (fs ∷ rest) =
    (det.detect ctx input ≡ ok fs) × Found ctx input dets rest
Found ctx input _ _ = ⊥

abbrev pub concat : List (List Finding) → List Finding
concat [] = []
concat (fs ∷ rest) = fs ++ concat rest

run_chain-report :
    (ctx : Context) (input : Input) (findings : List Finding) (masked : Str) (dets : List Detector)
    (found : List (List Finding))
    → Found ctx input dets found
    → run_chain ctx input findings masked dets
      ≡ ok (record { findings = findings ++ concat found; masked_diff = mask_all dets masked })
unfolding run_chain
run_chain-report ctx input findings masked [] [] h =
    ap (λ fs. ok (record { findings = fs; masked_diff = masked })) (sym (append-nil findings))
run_chain-report ctx input findings masked [] (fs ∷ found) h = elim h [ ]
run_chain-report ctx input findings masked (det ∷ dets) [] h = elim h [ ]
run_chain-report ctx input findings masked (det ∷ dets) (fs ∷ found) (h, hs) =
    let masked' = masked_by det.mask masked in
    ap (λ r. after det r (λ out. run_chain ctx input (findings ++ out) masked' dets)) h
    ∙ run_chain-report ctx input (findings ++ fs) masked' dets found hs
    ∙ ap (λ l. ok (record { findings = l; masked_diff = mask_all dets masked' }))
        (append_assoc findings fs (concat found))

run_chain-Found :
    (ctx : Context) (input : Input) (findings : List Finding) (masked : Str) (dets : List Detector)
    (a : Analysis)
    → run_chain ctx input findings masked dets ≡ ok a
    → (found : List (List Finding)) × Found ctx input dets found
unfolding run_chain
run_chain-Found ctx input findings masked [] a h = ([], tt)
run_chain-Found ctx input findings masked (det ∷ dets) a h =
    let next = λ (out : List Finding).
      run_chain ctx input (findings ++ out) (masked_by det.mask masked) dets in
    elim (Result-cases (det.detect ctx input)) [
      | inl (fs, e) ↦
          let (found, all) =
            run_chain-Found ctx input (findings ++ fs) (masked_by det.mask masked) dets a
              (sym (ap (λ r. after det r next) e) ∙ h) in
          (fs ∷ found, (e, all))
      | inr (x, e) ↦ absurd (cc (sym (ap (λ r. after det r next) e) ∙ h))
    ]

-- The chain returns an analysis exactly if every detector does its part. It then reports the
-- findings of all detectors in their order, each on the diff as it came, and gives the diff that
-- all the maskers, one after the other, have rewritten.
pub analyze_diff_iff :
    (dets : List Detector) (ctx : Context) (input : Input) (a : Analysis)
    → (analyze_diff dets ctx input ≡ ok a) ↔ (
        (found : List (List Finding)) × Found ctx input dets found
        × (a ≡ record { findings = concat found; masked_diff = mask_all dets input.diff }))
unfolding analyze_diff
analyze_diff_iff dets ctx input a = (
  λ h.
      let (found, all) = run_chain-Found ctx input [] input.diff dets a h in
      (found, all, cc (h, run_chain-report ctx input [] input.diff dets found all)),
  λ (found, all, e). run_chain-report ctx input [] input.diff dets found all ∙ ap ok (sym e),
)
