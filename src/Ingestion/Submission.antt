-- ===== src/Ingestion/Submission.antt =====
-- services/ingestion/internal/domain/submission.go
pub mod Accepted
use membrane_ai.Base.{ℕ, Str, bytes, is_blank, trim_space, length, ltb, if◌then◌else◌, []}
use membrane_ai.Base.Int.{ℤ, pos, is_pos}
use membrane_ai.Errs.{nil, validation_err, Result, ok, err}

-- A `type Origin string`: `other` holds a string that is none of the constants.
pub data Origin : Type 0 where
  unspecified ide webhook : Origin
  other : Str → Origin

abbrev pub max_diff_bytes : ℕ
max_diff_bytes = 1_048_576

pub record Submission : Type 0 where
  pub organization_id : Str
  pub repository : Str
  pub file_path : Str
  pub language : Str
  pub diff : Str
  pub origin : Origin
  pub commit_sha : Str
  pub pr_number : ℤ

-- `Submission.WithSource`
unfoldable pub attach_source : Submission → Str → ℤ → Submission
attach_source s commit_sha pr_number = record s {
  commit_sha = trim_space commit_sha;
  pr_number = if is_pos pr_number then pr_number else s.pr_number;
}

unfoldable pub normalize_origin : Origin → Origin
normalize_origin ide = ide
normalize_origin webhook = webhook
normalize_origin _ = unspecified

abbrev op_submission : Str
op_submission = bytes "ingestion.domain.NewSubmission"

unfoldable pub new_submission :
    (org_id repository file_path language diff : Str) → Origin → Result Submission
new_submission org_id repository file_path language diff origin =
    if is_blank org_id
    then err (validation_err op_submission (bytes "organization_id is required") nil)
    else if is_blank repository
    then err (validation_err op_submission (bytes "repository is required") nil)
    else if is_blank file_path
    then err (validation_err op_submission (bytes "file_path is required") nil)
    else if is_blank diff
    then err (validation_err op_submission (bytes "diff is required") nil)
    else if ltb max_diff_bytes (length diff)
    then err (validation_err op_submission (bytes "diff exceeds the maximum size") nil)
    else ok (record {
      organization_id = trim_space org_id;
      repository = trim_space repository;
      file_path = trim_space file_path;
      language = trim_space language;
      diff = diff;
      origin = normalize_origin origin;
      commit_sha = [];
      pr_number = pos 0;
    })
