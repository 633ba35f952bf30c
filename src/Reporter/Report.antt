-- ===== src/Reporter/Report.antt =====
-- services/reporter/internal/domain/report.go
pub mod Outcomes
use mathlib.Core.List.{reverse}
use Prim.Native.Nat.{◌-◌}
use membrane_ai.Base.{
  ℕ, Bool, true, false, ◌&&◌, List, [], ◌∷◌, ◌++◌, Str, bytes, ◌==◌, is_blank, length, take, eqb,
  ltb, if◌then◌else◌,
}
use membrane_ai.Base.Int.{ℤ}
use membrane_ai.Base.Decimal.{decimal}
use membrane_ai.Errs.{nil, validation_err, Result, ok, err, ◌>>=◌}

pub data Outcome : Type 0 where
  success failure neutral : Outcome

-- A `type Mode string`: `other` holds a string that is none of the constants.
pub data Mode : Type 0 where
  enforce shadow : Mode
  other : Str → Mode

pub record Finding : Type 0 where
  pub stage : Str
  pub rule : Str
  pub severity : Str
  pub message : Str

pub record Verdict : Type 0 where
  pub submission_id : Str
  pub organization_id : Str
  pub decision : Str
  pub source : Str
  pub ruleset_version : Str
  pub findings : List Finding
  pub repository : Str
  pub commit_sha : Str
  pub pr_number : ℤ

pub record Report : Type 0 where
  pub submission_id : Str
  pub organization_id : Str
  pub outcome : Outcome
  pub title : Str
  pub body : Str
  pub repository : Str
  pub commit_sha : Str
  pub pr_number : ℤ

abbrev op_report : Str
op_report = bytes "reporter.domain.NewReport"

unfoldable pub outcome_for : Str → Result Outcome
unfolding ◌==◌
outcome_for decision =
    if decision == bytes "approved"
    then ok success
    else if decision == bytes "rejected"
    then ok failure
    else if decision == bytes "needs_review"
    then ok neutral
    else err (validation_err op_report (bytes "unknown decision " ++ decision) nil)

unfoldable pub title_of : Outcome → Verdict → Str
title_of success v = bytes "MEMBRANE.AI ✓ approved — architectural & security checks passed"
title_of failure v =
    bytes "MEMBRANE.AI ✗ rejected — "
    ++ decimal (length v.findings)
    ++ bytes " finding(s) must be fixed"
title_of neutral v = bytes "MEMBRANE.AI ⚠ needs review — human sign-off required"

-- The lines of the findings that are shown.
unfoldable pub finding_lines : List Finding → Str
finding_lines [] = []
finding_lines (f ∷ fs) =
    bytes "• ["
    ++ f.stage
    ++ bytes "] "
    ++ f.rule
    ++ bytes " ("
    ++ f.severity
    ++ bytes "): "
    ++ f.message
    ++ bytes "\n"
    ++ finding_lines fs

-- `strings.TrimRight(s, "\n")`
drop_newlines : Str → Str
drop_newlines [] = []
drop_newlines (c ∷ s) = if eqb c 10 then drop_newlines s else c ∷ s

unfoldable pub trim_newlines : Str → Str
unfolding drop_newlines
trim_newlines s = reverse (drop_newlines (reverse s))

abbrev max_body_findings : ℕ
max_body_findings = 10

unfoldable pub body_of : Verdict → Str
unfolding finding_lines trim_newlines
body_of v =
    let n = length v.findings in
    trim_newlines (
      bytes "submission "
      ++ v.submission_id
      ++ bytes " · source "
      ++ v.source
      ++ bytes " · ruleset "
      ++ v.ruleset_version
      ++ bytes "\n"
      ++ finding_lines
          (if ltb max_body_findings n then take max_body_findings v.findings else v.findings)
      ++ (if ltb max_body_findings n
          then bytes "… and " ++ decimal (n - max_body_findings) ++ bytes " more finding(s)\n"
          else [])
      ++ (if eqb n 0 then bytes "no findings\n" else []))

abbrev pub is_shadow : Mode → Bool
is_shadow shadow = true
is_shadow _ = false

abbrev pub is_failure : Outcome → Bool
is_failure failure = true
is_failure _ = false

-- The report of an outcome and a title.
abbrev render : Verdict → Outcome → Str → Report
render v outcome title = record {
  submission_id = v.submission_id;
  organization_id = v.organization_id;
  outcome = outcome;
  title = title;
  body = body_of v;
  repository = v.repository;
  commit_sha = v.commit_sha;
  pr_number = v.pr_number;
}

-- The shadow-mode downgrade of a rejection.
abbrev pub downgrade : Mode → Verdict → Outcome → Report
downgrade mode v outcome =
    if is_shadow mode && is_failure outcome
    then render v neutral (
        bytes "MEMBRANE.AI ⚠ shadow mode — "
        ++ decimal (length v.findings)
        ++ bytes " finding(s) would block in enforce mode")
    else render v outcome (title_of outcome v)

unfoldable pub new_report : Verdict → Mode → Result Report
new_report v mode =
    if is_blank v.submission_id
    then err (validation_err op_report (bytes "submission_id is required") nil)
    else outcome_for v.decision >>= λ outcome. ok (downgrade mode v outcome)
