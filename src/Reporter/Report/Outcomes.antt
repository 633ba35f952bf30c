-- ===== src/Reporter/Report/Outcomes.antt =====
-- Which outcome a verdict is reported with.
use mathlib.Core.Path.{subst}
use membrane_ai.Base.{
  ◌≡◌, ◌≢◌, ◌↔◌, ◌⊎◌, inl, inr, refl, false, Bool-cases, ==_apart, Str, bytes, ◌==◌, ==_iff,
  is_blank, arith,
}
use membrane_ai.Errs.{GoError, kind_of, validation, ok, err, bind_ok}
use membrane_ai.Reporter.Report.{
  Outcome, success, failure, neutral, Mode, shadow, Verdict, Report, downgrade, outcome_for,
  new_report,
}

-- The three decisions that the reporter knows.
abbrev pub IsKnown : Str → Type 0
IsKnown d = (d ≡ bytes "approved") ⊎ ((d ≡ bytes "rejected") ⊎ (d ≡ bytes "needs_review"))

-- What the report says of the verdict.
pub record IsReportOf (r : Report) (v : Verdict) (mode : Mode) : Type 0 where
  pub submission_id : r.submission_id ≡ v.submission_id
  pub commit_sha : r.commit_sha ≡ v.commit_sha
  pub passes : (r.outcome ≡ success) ↔ (v.decision ≡ bytes "approved")
  pub blocks : (r.outcome ≡ failure) ↔ ((v.decision ≡ bytes "rejected") × (mode ≢ shadow))

pub approved-rejected : bytes "approved" ≢ bytes "rejected"
unfolding bytes ◌==◌
approved-rejected = ==_apart _ _ refl

pub approved-needs_review : bytes "approved" ≢ bytes "needs_review"
unfolding bytes ◌==◌
approved-needs_review = ==_apart _ _ refl

pub rejected-needs_review : bytes "rejected" ≢ bytes "needs_review"
unfolding bytes ◌==◌
rejected-needs_review = ==_apart _ _ refl

outcome_for-IsKnown : (d : Str) (o : Outcome) → outcome_for d ≡ ok o → IsKnown d
unfolding outcome_for
outcome_for-IsKnown d o h = ground (
  arith,
  h,
  ==_iff d (bytes "approved"),
  ==_iff d (bytes "rejected"),
  ==_iff d (bytes "needs_review"),
)

outcome_for_known : (d : Str) → IsKnown d → (o : Outcome) × (outcome_for d ≡ ok o)
unfolding outcome_for
outcome_for_known d (inl e) = (success, ground (arith, e, ==_iff d (bytes "approved")))
outcome_for_known d (inr (inl e)) = (
  failure,
  ground (arith, e, approved-rejected, ==_iff d (bytes "approved"), ==_iff d (bytes "rejected")),
)
outcome_for_known d (inr (inr e)) = (
  neutral,
  ground (
    arith,
    e,
    approved-needs_review,
    rejected-needs_review,
    ==_iff d (bytes "approved"),
    ==_iff d (bytes "rejected"),
    ==_iff d (bytes "needs_review"),
  ),
)

outcome_for_ok :
    (d : Str) (o : Outcome)
    → outcome_for d ≡ ok o
    → ((o ≡ success) ↔ (d ≡ bytes "approved")) × ((o ≡ failure) ↔ (d ≡ bytes "rejected"))
unfolding outcome_for
outcome_for_ok d o h = ground (
  arith,
  h,
  ==_iff d (bytes "approved"),
  ==_iff d (bytes "rejected"),
  ==_iff d (bytes "needs_review"),
  approved-rejected,
  approved-needs_review,
  rejected-needs_review,
)

downgrade-IsReportOf :
    (v : Verdict) (mode : Mode) (o : Outcome)
    → ((o ≡ success) ↔ (v.decision ≡ bytes "approved"))
      × ((o ≡ failure) ↔ (v.decision ≡ bytes "rejected"))
    → IsReportOf (downgrade mode v o) v mode
downgrade-IsReportOf v mode o h = record {
  submission_id = ground arith;
  commit_sha = ground arith;
  passes = ground (arith, h);
  blocks = ground (arith, h);
}

new_report-outcome :
    (v : Verdict) (mode : Mode) (r : Report)
    → new_report v mode ≡ ok r
    → (is_blank v.submission_id ≡ false)
      × (o : Outcome) × (outcome_for v.decision ≡ ok o)
      × (downgrade mode v o ≡ r)
unfolding new_report
new_report-outcome v mode r h = elim (Bool-cases (is_blank v.submission_id)) [
  | inl blank ↦ absurd (ground (arith, rw blank at h))
  | inr filled ↦
      let (o, known, e) = bind_ok _ (λ o. ok (downgrade mode v o)) (rw filled at h) in
      (filled, o, known, cc e)
]

-- A verdict is reported exactly if it names its submission and its decision is one of the three.
pub new_report_iff :
    (v : Verdict) (mode : Mode)
    → ((r : Report) × (new_report v mode ≡ ok r))
      ↔ ((is_blank v.submission_id ≡ false) × IsKnown v.decision)
new_report_iff v mode = (
  λ (r, h).
      let (filled, o, known, _) = new_report-outcome v mode r h in
      (filled, outcome_for-IsKnown v.decision o known),
  λ (filled, known).
      let (o, e) = outcome_for_known v.decision known in
      (downgrade mode v o, unfold new_report in rw (filled, e)),
)

-- A report carries the submission and the commit of its verdict, is a success exactly for an approved
-- one, and a failure, which blocks the merge, exactly for a rejected one outside shadow mode.
pub new_report-IsReportOf :
    (v : Verdict) (mode : Mode) (r : Report) → new_report v mode ≡ ok r → IsReportOf r v mode
new_report-IsReportOf v mode r h =
    let (_, o, known, rendered) = new_report-outcome v mode r h in
    subst (λ r. IsReportOf r v mode) rendered
      (downgrade-IsReportOf v mode o (outcome_for_ok v.decision o known))

pub new_report-validation :
    (v : Verdict) (mode : Mode) (x : GoError) → new_report v mode ≡ err x → kind_of x ≡ validation
unfolding new_report outcome_for kind_of
new_report-validation v mode x h = ground (arith, h)
