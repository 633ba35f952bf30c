-- ===== src/Ingestion/Enqueue/Queued.antt =====
-- Every acknowledged submission is on the bus, under an id of its own.
use mathlib.Core.List.{append_assoc, append-nil}
use membrane_ai.Base.{◌≡◌, refl, sym, ap, ◌∙◌, List, [], ◌∷◌, ◌++◌}
use membrane_ai.Base.Context.{Context}
use membrane_ai.Errs.{Result, ok}
use membrane_ai.Ingestion.Submission.{Submission}
use membrane_ai.Ingestion.Enqueue.{
  Event, IdGen, Clock, EnqueueResult, Bus, status_queued, enqueue, in_memory,
}

module _ {W : Type 0} (ids : IdGen W) (clock : Clock W) (ctx : Context) where
  -- The event of a submission in a world.
  abbrev pub event_of : Submission → W → Event
  event_of sub w = record {
    submission_id = (ids.new_id w).0;
    organization_id = sub.organization_id;
    submission = sub;
    occurred_at = (clock.now (ids.new_id w).1).0;
  }

  pub enqueue-eq :
      (sub : Submission) (b : Bus W)
      → enqueue (in_memory ids clock) ctx sub b ≡ (
        ok (record { submission_id = (ids.new_id b.outside).0; status = status_queued }),
        record {
          events = b.events ++ event_of sub b.outside ∷ [];
          outside = (clock.now (ids.new_id b.outside).1).1;
        },
      )
  unfolding enqueue in_memory
  enqueue-eq sub b = refl

  -- The answers to a sequence of submissions, and the bus after the last one.
  unfoldable pub enqueue_all : List Submission → Bus W → List (Result EnqueueResult) × Bus W
  enqueue_all [] b = ([], b)
  enqueue_all (s ∷ ss) b =
      let (answer, b') = enqueue (in_memory ids clock) ctx s b in
      let (answers, b'') = enqueue_all ss b' in (answer ∷ answers, b'')

  -- Submission by submission, the answer is the id of its event.
  abbrev pub IsQueuedAs : List Submission → List (Result EnqueueResult) → List Event → Type 0
  IsQueuedAs [] [] [] = Unit
  IsQueuedAs (s ∷ ss) (answer ∷ answers) (e ∷ es) =
      (answer ≡ ok (record { submission_id = e.submission_id; status = status_queued }))
      × (e.submission ≡ s)
      × (e.organization_id ≡ s.organization_id)
      × IsQueuedAs ss answers es
  IsQueuedAs _ _ _ = ⊥

  -- Over any sequence of submissions to the in-memory publisher, the bus keeps what it has and
  -- gains one event for each, in order, with the submission as it is, its organisation as the
  -- partition key, and the id that the caller was given.
  pub enqueue_all-events :
      (subs : List Submission) (b : Bus W)
      → (new : List Event) × ((enqueue_all subs b).1.events ≡ b.events ++ new)
        × IsQueuedAs subs (enqueue_all subs b).0 new
  unfolding enqueue_all
  enqueue_all-events [] b = ([], sym (append-nil b.events), tt)
  enqueue_all-events (s ∷ ss) b =
      let done = enqueue-eq s b in
      let (new, grown, queued) = enqueue_all-events ss (enqueue (in_memory ids clock) ctx s b).1 in
      let event = event_of s b.outside in
      (
        event ∷ new,
        grown ∙ ap (λ r. r.1.events ++ new) done ∙ append_assoc b.events (event ∷ []) new,
        (ap (λ r. r.0) done, refl, refl, queued),
      )
