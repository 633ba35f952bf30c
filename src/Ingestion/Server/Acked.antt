-- ===== src/Ingestion/Server/Acked.antt =====
-- What a stream of submissions leaves on the bus.
use mathlib.Core.List.{append_assoc, append-nil}
use membrane_ai.Base.{
  ◌≡◌, ◌⊎◌, inl, inr, refl, sym, ap, ◌∙◌, true, Option, none, some, List, [], ◌∷◌, ◌++◌, Bool-cases,
}
use membrane_ai.Base.Context.{Context}
use membrane_ai.Errs.{GoError, is_err, Result, ok, err}
use membrane_ai.Ingestion.Submission.{Submission}
use membrane_ai.Ingestion.Enqueue.{
  Event, IdGen, Clock, Bus, EnqueueResult, status_queued, enqueue, in_memory,
}
use membrane_ai.Ingestion.Enqueue.Queued.{event_of, enqueue-eq}
use membrane_ai.Ingestion.Server.{
  Failure, transport, Recv, message, broken, to_domain, submit, after_submit, onto, status_from_err,
  stream_code_diff,
}

-- The acknowledgements are those of the events, one by one.
abbrev pub AreAcks : List EnqueueResult → List Event → Type 0
AreAcks [] [] = Unit
AreAcks (a ∷ acks) (e ∷ events) =
    (a ≡ record { submission_id = e.submission_id; status = status_queued }) × AreAcks acks events
AreAcks _ _ = ⊥

-- Each queued event is acknowledged, but for a last one whose acknowledgement could not be sent.
pub record IsAcked {W : Type 0} (before after : Bus W) (acks : List EnqueueResult)
    (failed : Option Failure) : Type 0 where
  pub acked : List Event
  pub unacked : List Event
  pub grown : after.events ≡ before.events ++ (acked ++ unacked)
  pub are_acks : AreAcks acks acked
  pub last :
      (unacked ≡ [])
      ⊎ ((event : Event) × (e : GoError) × (unacked ≡ event ∷ [])
          × (is_err e ≡ true)
          × (failed ≡ some (transport e)))

module _ {W : Type 0} (ids : IdGen W) (clock : Clock W) (ctx : Context) where
  abbrev pub Acked : Bus W → List EnqueueResult × Option Failure × Bus W → Type 0
  Acked b result = IsAcked b result.2 result.0 result.1

  unchanged : (b : Bus W) (failed : Option Failure) → IsAcked b b [] failed
  unchanged b failed = record {
    acked = [];
    unacked = [];
    grown = sym (append-nil b.events);
    are_acks = tt;
    last = inl refl;
  }

  -- The bus after one more submission.
  abbrev next_bus : Submission → Bus W → Bus W
  next_bus sub b = (enqueue (in_memory ids clock) ctx sub b).1

  result_of : (sub : Submission) (b : Bus W) → EnqueueResult
  result_of sub b = record {
    submission_id = (event_of ids clock ctx sub b.outside).submission_id;
    status = status_queued;
  }

  next_bus-events :
      (sub : Submission) (b : Bus W)
      → (next_bus sub b).events ≡ b.events ++ event_of ids clock ctx sub b.outside ∷ []
  next_bus-events sub b = ap (λ r. r.1.events) (enqueue-eq ids clock ctx sub b)

  -- An acknowledgement that could not be sent ends the stream.
  unsent :
      (sub : Submission) (b : Bus W) (e : GoError)
      → is_err e ≡ true
      → IsAcked b (next_bus sub b) [] (some (transport e))
  unsent sub b e failed = record {
    acked = [];
    unacked = event_of ids clock ctx sub b.outside ∷ [];
    grown = next_bus-events sub b;
    are_acks = tt;
    last = inr (event_of ids clock ctx sub b.outside, e, refl, failed, refl);
  }

  sent :
      (sub : Submission) (b : Bus W) (rest : List EnqueueResult × Option Failure × Bus W)
      → Acked (next_bus sub b) rest
      → Acked b (onto (in_memory ids clock) ctx (result_of sub b) rest)
  unfolding result_of
  sent sub b (acks, failed, after) h =
      let event = event_of ids clock ctx sub b.outside in
      record {
        acked = event ∷ h.acked;
        unacked = h.unacked;
        grown =
            h.grown
            ∙ ap (λ es. es ++ (h.acked ++ h.unacked)) (next_bus-events sub b)
            ∙ append_assoc b.events (event ∷ []) (h.acked ++ h.unacked);
        are_acks = (refl, h.are_acks);
        last = h.last;
      }

  submitted :
      (send_error : GoError) (rest : Bus W → List EnqueueResult × Option Failure × Bus W)
      (b : Bus W)
      → ((b' : Bus W) → Acked b' (rest b'))
      → (sub : Result Submission)
      → Acked b (
          after_submit
            (in_memory ids clock)
            ctx
            send_error
            (λ res b'. onto (in_memory ids clock) ctx res (rest b'))
            (submit (in_memory ids clock) ctx b sub))
  unfolding result_of enqueue in_memory
  submitted send_error rest b later (err e) = unchanged b (some (status_from_err e))
  submitted send_error rest b later (ok sub) = elim (Bool-cases (is_err send_error)) [
    | inl failed ↦ rw failed (unsent sub b send_error failed)
    | inr fine ↦ rw fine (sent sub b (rest (next_bus sub b)) (later (next_bus sub b)))
  ]

  -- Over any stream of submissions to the in-memory bus, however it ends: the bus gains one event for
  -- each acknowledgement that was sent, in order and with its id, and at most one more, which comes
  -- last and only if its acknowledgement could not be sent.
  pub stream_code_diff-IsAcked :
      (messages : List Recv) (b : Bus W)
      → Acked b (stream_code_diff (in_memory ids clock) ctx messages b)
  unfolding stream_code_diff
  stream_code_diff-IsAcked [] b = unchanged b none
  stream_code_diff-IsAcked (broken e ∷ rest) b = unchanged b (some (transport e))
  stream_code_diff-IsAcked (message cs send_error ∷ rest) b =
      submitted send_error (stream_code_diff (in_memory ids clock) ctx rest) b
        (stream_code_diff-IsAcked rest) (to_domain cs)
