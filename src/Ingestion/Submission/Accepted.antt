-- ===== src/Ingestion/Submission/Accepted.antt =====
-- What a submission of the ingestion satisfies, and that the orchestrator accepts it.
use mathlib.Core.Path.{subst}
use membrane_ai.Base.{
  ◌≡◌, ◌⊎◌, ◌≤◌, refl, sym, [], ap, ◌∙◌, false, Str, is_blank, trim_space, length, arith,
}
use membrane_ai.Base.Trim.{is_blank-trim_space}
use membrane_ai.Base.Int.{pos}
use membrane_ai.Errs.{ok}
use membrane_ai.Ingestion.Submission.{
  Origin, unspecified, ide, webhook, normalize_origin, Submission, max_diff_bytes, new_submission,
}
use membrane_ai.Orchestrator.Verdict
use membrane_ai.Orchestrator.Verdict.{Time}

-- The invariants of a submission.
pub record IsWellFormed (s : Submission) : Type 0 where
  pub organization : is_blank s.organization_id ≡ false
  pub repository : is_blank s.repository ≡ false
  pub file : is_blank s.file_path ≡ false
  pub diff : is_blank s.diff ≡ false
  pub size : length s.diff ≤ max_diff_bytes
  pub origin : (s.origin ≡ unspecified) ⊎ ((s.origin ≡ ide) ⊎ (s.origin ≡ webhook))

-- Each field is as the constructor got it, without the white space around it, the diff as it was.
new_submission-fields :
    (org_id repository file_path language diff : Str) (origin : Origin) (s : Submission)
    → new_submission org_id repository file_path language diff origin ≡ ok s
    → (is_blank org_id ≡ false)
      × (is_blank repository ≡ false)
      × (is_blank file_path ≡ false)
      × (is_blank diff ≡ false)
      × (length diff ≤ max_diff_bytes)
      × (s.organization_id ≡ trim_space org_id)
      × (s.repository ≡ trim_space repository)
      × (s.file_path ≡ trim_space file_path)
      × (s.diff ≡ diff)
      × (s.origin ≡ normalize_origin origin)
unfolding new_submission
new_submission-fields org_id repository file_path language diff origin s h = ground (arith, h)

normalize_origin_known :
    (o : Origin)
    → (normalize_origin o ≡ unspecified)
      ⊎ ((normalize_origin o ≡ ide) ⊎ (normalize_origin o ≡ webhook))
unfolding normalize_origin
normalize_origin_known o = ground arith

-- Every submission that `NewSubmission` returns names its organisation, repository and file, has a
-- diff of at most 1 MiB that is not blank, and a known origin.
pub new_submission-IsWellFormed :
    (org_id repository file_path language diff : Str) (origin : Origin) (s : Submission)
    → new_submission org_id repository file_path language diff origin ≡ ok s
    → IsWellFormed s
new_submission-IsWellFormed org_id repository file_path language diff origin s h =
    let (o, r, f, d, size, eo, er, ef, ed, eg) =
      new_submission-fields org_id repository file_path language diff origin s h in
    record {
      organization = ap is_blank eo ∙ is_blank-trim_space org_id ∙ o;
      repository = ap is_blank er ∙ is_blank-trim_space repository ∙ r;
      file = ap is_blank ef ∙ is_blank-trim_space file_path ∙ f;
      diff = ap is_blank ed ∙ d;
      size = subst (λ x. length x ≤ max_diff_bytes) (sym ed) size;
      origin =
          subst (λ x. (x ≡ unspecified) ⊎ ((x ≡ ide) ⊎ (x ≡ webhook))) (sym eg)
            (normalize_origin_known origin);
    }

-- The orchestrator accepts every well-formed submission of the ingestion under an id that is not
-- blank: nothing that was queued is dropped there as malformed.
pub handed_over :
    (s : Submission) (id language origin : Str) (t : Time)
    → IsWellFormed s
    → is_blank id ≡ false
    → (sub : Verdict.Submission) × (Verdict.new_submission id s.organization_id s.repository
          s.file_path language s.diff origin t
        ≡ ok sub)
unfolding Verdict.new_submission
handed_over s id language origin t w named = (
  record {
    submission_id = trim_space id;
    organization_id = trim_space s.organization_id;
    repository = trim_space s.repository;
    file_path = trim_space s.file_path;
    language = trim_space language;
    diff = s.diff;
    origin = trim_space origin;
    occurred_at = t;
    commit_sha = [];
    pr_number = pos 0;
  },
  rw (named, w.organization, w.diff) refl,
)
