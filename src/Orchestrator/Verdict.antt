-- ===== src/Orchestrator/Verdict.antt =====
-- services/orchestrator/internal/domain/verdict.go
pub mod Decisions
pub mod CacheKey
use Prim.Native.Nat.{◌/◌, ◌%◌}
use membrane_ai.Base.{
  ℕ, ◌+◌, Bool, true, false, List, [], ◌∷◌, ◌++◌, Str, bytes, trim_space, is_blank, ltb,
  if◌then◌else◌,
}
use membrane_ai.Base.Int.{ℤ, pos, is_pos}
use membrane_ai.Errs.{nil, validation_err, Result, ok, err}

-- An instant, in nanoseconds since the zero `time.Time`.
abbrev pub Time : Type 0
Time = ℤ

pub record Submission : Type 0 where
  pub submission_id : Str
  pub organization_id : Str
  pub repository : Str
  pub file_path : Str
  pub language : Str
  pub diff : Str
  pub origin : Str
  pub occurred_at : Time
  pub commit_sha : Str
  pub pr_number : ℤ

-- `Submission.WithSource`
unfoldable pub with_source : Submission → Str → ℤ → Submission
with_source s commit_sha pr_number = record s {
  commit_sha = trim_space commit_sha;
  pr_number = if is_pos pr_number then pr_number else s.pr_number;
}

abbrev op_submission : Str
op_submission = bytes "orchestrator.domain.NewSubmission"

unfoldable pub new_submission : Str → Str → Str → Str → Str → Str → Str → Time → Result Submission
new_submission submission_id org_id repository file_path language diff origin occurred_at =
    if is_blank submission_id
    then err (validation_err op_submission (bytes "submission_id is required") nil)
    else if is_blank org_id
    then err (validation_err op_submission (bytes "organization_id is required") nil)
    else if is_blank diff
    then err (validation_err op_submission (bytes "diff is required") nil)
    else ok (record {
      submission_id = trim_space submission_id;
      organization_id = trim_space org_id;
      repository = trim_space repository;
      file_path = trim_space file_path;
      language = trim_space language;
      diff = diff;
      origin = trim_space origin;
      occurred_at = occurred_at;
      commit_sha = [];
      pr_number = pos 0;
    })

-- `type Severity string`, as `Decision` and `Source` below: `other` holds a string that is none of
-- the constants.
pub data Severity : Type 0 where
  info warning blocking : Severity
  other : Str → Severity

pub record Finding : Type 0 where
  pub stage : Str
  pub rule : Str
  pub severity : Severity
  pub message : Str

pub data Decision : Type 0 where
  approved needs_review rejected : Decision
  other : Str → Decision

pub data Source : Type 0 where
  cache pipeline fallback : Source
  other : Str → Source

pub record Verdict : Type 0 where
  pub submission_id : Str
  pub organization_id : Str
  pub decision : Decision
  pub source : Source
  pub ruleset_version : Str
  pub findings : List Finding
  pub evaluated_at : Time
  pub repository : Str
  pub commit_sha : Str
  pub pr_number : ℤ

-- `Verdict.StampSource`
unfoldable pub stamp_source : Verdict → Submission → Verdict
stamp_source v sub = record v {
  submission_id = sub.submission_id;
  organization_id = sub.organization_id;
  repository = sub.repository;
  commit_sha = sub.commit_sha;
  pr_number = sub.pr_number;
}

-- `Verdict.StripSource`
unfoldable pub strip_source : Verdict → Verdict
strip_source v = record v {
  submission_id = [];
  organization_id = [];
  repository = [];
  commit_sha = [];
  pr_number = pos 0;
}

abbrev pub is_blocking : Severity → Bool
is_blocking blocking = true
is_blocking _ = false

abbrev pub is_warning : Severity → Bool
is_warning warning = true
is_warning _ = false

-- The loop of `Consolidate`, over the decision so far.
consolidate_from : Decision → List Finding → Decision
consolidate_from decision [] = decision
consolidate_from decision (f ∷ fs) =
    if is_blocking f.severity
    then rejected
    else consolidate_from (if is_warning f.severity then needs_review else decision) fs

unfoldable pub consolidate : List Finding → Decision
unfolding consolidate_from
consolidate findings = consolidate_from approved findings

-- `hex.EncodeToString`
abbrev hex_digit : ℕ → ℕ
hex_digit d = if ltb d 10 then 48 + d else 87 + d

unfoldable pub hex_encode : Str → Str
hex_encode [] = []
hex_encode (b ∷ s) = hex_digit (b / 16) ∷ hex_digit (b % 16) ∷ hex_encode s

-- `CacheKey`. The digest of package blake3 is a parameter.
unfoldable pub cache_key : (Str → Str) → Str → Str → Str
unfolding hex_encode
cache_key blake3 diff ruleset_version = hex_encode (blake3 (ruleset_version ++ 0 ∷ diff))
