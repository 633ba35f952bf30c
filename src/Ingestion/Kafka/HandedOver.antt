-- ===== src/Ingestion/Kafka/HandedOver.antt =====
-- What the orchestrator makes of an event of the ingestion.
use membrane_ai.Base.{◌≡◌, refl, ap, ◌∙◌, false, [], trim_space, is_blank}
use membrane_ai.Base.Int.{pos}
use membrane_ai.Errs.{ok}
use membrane_ai.Orchestrator.Verdict
use membrane_ai.Orchestrator.Codec.{submission_of}
use membrane_ai.Ingestion.Submission.Accepted.{IsWellFormed}
use membrane_ai.Ingestion.Enqueue.{Event}
use membrane_ai.Ingestion.Kafka.{submission_v1, origin_string}

-- The submission that arrives is the one that was queued.
pub record IsHandedOver (ev : Event) (sub : Verdict.Submission) : Type 0 where
  pub submission_id : sub.submission_id ≡ trim_space ev.submission_id
  pub organization_id : sub.organization_id ≡ trim_space ev.organization_id
  pub repository : sub.repository ≡ trim_space ev.submission.repository
  pub file_path : sub.file_path ≡ trim_space ev.submission.file_path
  pub diff : sub.diff ≡ ev.submission.diff
  pub occurred_at : sub.occurred_at ≡ ev.occurred_at
  pub commit_sha : sub.commit_sha ≡ trim_space ev.submission.commit_sha

-- Nothing that was queued is dropped by the orchestrator as malformed: the envelope of an event with a
-- well-formed submission and an id that is not blank decodes to a submission of the orchestrator with
-- the same diff and time, and with its names and its commit trimmed.
pub queued-IsHandedOver :
    (ev : Event)
    → IsWellFormed ev.submission
    → ev.organization_id ≡ ev.submission.organization_id
    → is_blank ev.submission_id ≡ false
    → (sub : Verdict.Submission) × (submission_of (submission_v1 ev) ≡ ok sub) × IsHandedOver ev sub
unfolding submission_of submission_v1 Verdict.new_submission Verdict.with_source
queued-IsHandedOver ev w same named =
    let kept = ap is_blank same ∙ w.organization in
    let sub : Verdict.Submission = record {
      submission_id = trim_space ev.submission_id;
      organization_id = trim_space ev.organization_id;
      repository = trim_space ev.submission.repository;
      file_path = trim_space ev.submission.file_path;
      language = trim_space ev.submission.language;
      diff = ev.submission.diff;
      origin = trim_space (origin_string ev.submission.origin);
      occurred_at = ev.occurred_at;
      commit_sha = [];
      pr_number = pos 0;
    } in
    (
      Verdict.with_source sub ev.submission.commit_sha ev.submission.pr_number,
      rw (named, kept, w.diff) refl,
      record {
        submission_id = refl;
        organization_id = refl;
        repository = refl;
        file_path = refl;
        diff = refl;
        occurred_at = refl;
        commit_sha = refl;
      },
    )
