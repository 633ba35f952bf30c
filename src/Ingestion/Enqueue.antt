-- ===== src/Ingestion/Enqueue.antt =====
-- services/ingestion/internal/app/enqueue.go, ports/ports.go and adapters/memory/publisher.go.
-- `E` is the state of the world outside.
pub mod Queued
use membrane_ai.Base.{Str, bytes, List, [], ◌∷◌, ◌++◌, if◌then◌else◌}
use membrane_ai.Base.Int.{ℤ}
use membrane_ai.Base.Context.{Context}
use membrane_ai.Errs.{GoError, nil, is_err, unavailable_err, Result, ok, err}
use membrane_ai.Ingestion.Submission.{Submission}

-- Nanoseconds since the zero `time.Time`.
abbrev pub Time : Type 0
Time = ℤ

pub record Event : Type 0 where
  pub submission_id : Str
  pub organization_id : Str
  pub submission : Submission
  pub occurred_at : Time

pub record EventPublisher (E : Type 0) : Type 0 where
  pub publish : Context → Event → E → GoError × E

pub record IdGen (E : Type 0) : Type 0 where
  pub new_id : E → Str × E

pub record Clock (E : Type 0) : Type 0 where
  pub now : E → Time × E

pub record EnqueueResult : Type 0 where
  pub submission_id : Str
  pub status : Str

pub record EnqueueSubmission (E : Type 0) : Type 0 where
  pub publisher : EventPublisher E
  pub ids : IdGen E
  pub clock : Clock E

abbrev pub status_queued : Str
status_queued = bytes "QUEUED_FOR_IMMUNE_PROCESSING"

abbrev op_enqueue : Str
op_enqueue = bytes "ingestion.app.EnqueueSubmission"

-- `EnqueueSubmission.Handle`
unfoldable pub enqueue :
    {E : Type 0} → EnqueueSubmission E → Context → Submission → E → Result EnqueueResult × E
enqueue uc ctx sub e =
    let (id, e1) = uc.ids.new_id e in
    let (t, e2) = uc.clock.now e1 in
    let (er, e3) =
      uc.publisher.publish ctx
        (record {
          submission_id = id;
          organization_id = sub.organization_id;
          submission = sub;
          occurred_at = t;
        })
        e2 in
    (
      if is_err er
          then err (unavailable_err op_enqueue (bytes "failed to publish submission") er)
          else ok (record { submission_id = id; status = status_queued }),
      e3,
    )

-- `memory.Publisher`, beside the world `W` of the id generator and the clock.
pub record Bus (W : Type 0) : Type 0 where
  pub events : List Event
  pub outside : W

module _ {W : Type 0} where
  -- `Publisher.Publish`
  unfoldable pub publish_event : Context → Event → Bus W → GoError × Bus W
  publish_event ctx event b = (nil, record b { events = b.events ++ event ∷ [] })

  -- The in-memory wiring: the id generator and the clock leave the bus alone.
  unfoldable pub in_memory : IdGen W → Clock W → EnqueueSubmission (Bus W)
  unfolding publish_event
  in_memory ids clock = record {
    publisher = record { publish = publish_event };
    ids = record {
      new_id = λ b. let (id, w) = ids.new_id b.outside in (id, record b { outside = w });
    };
    clock = record { now = λ b. let (t, w) = clock.now b.outside in (t, record b { outside = w }) };
  }
