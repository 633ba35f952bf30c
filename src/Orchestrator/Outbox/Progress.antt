-- ===== src/Orchestrator/Outbox/Progress.antt =====
-- What a tick of the relay does where nothing fails.
use mathlib.Core.Path.{subst}
use mathlib.Core.List.{append_assoc, append-nil}
use membrane_ai.Base.{
  ℕ, zero, suc, ◌≤◌, ◌≡◌, ◌⊎◌, refl, sym, ap, ◌∙◌, ◌++◌, inl, inr, Bool, true, false, List, [], ◌∷◌,
  Str, map, take, length, All, arith, Bool-cases,
}
use membrane_ai.Base.Context.{Context}
use membrane_ai.Errs.{GoError, nil, is_err}
use membrane_ai.Orchestrator.Outbox.{
  OutboxRow, Db, done, RelayFaults, RecordPublisher, pending, elem, mark_row, ids_of, headers_of,
  ship, commit_marks, ship_claimed, publish_pending,
}
use membrane_ai.Orchestrator.Outbox.Delivery.{Sent, sent, IsBus}

-- No statement fails, and no other relay holds a row.
abbrev pub free : ℕ → Bool
free id = false

abbrev pub no_fault : RelayFaults
no_fault = record {
  begin_tx = nil;
  select = nil;
  scan = nil;
  iterate = nil;
  mark = nil;
  commit = done;
  locked = free;
}

-- The row is published, or its id is among those.
abbrev IsCovered : List ℕ → OutboxRow → Type 0
IsCovered ids r = (r.published ≡ true) ⊎ (elem r.id ids ≡ true)

IsCovered-more :
    (n : ℕ) (ids : List ℕ) (rows : List OutboxRow)
    → All (IsCovered ids) rows
    → All (IsCovered (n ∷ ids)) rows
unfolding elem
IsCovered-more n ids [] h = tt
IsCovered-more n ids (r ∷ rows) (c, h) = (ground (arith, c), IsCovered-more n ids rows h)

pending_published :
    (r : OutboxRow) (rows : List OutboxRow)
    → r.published ≡ true
    → pending free (r ∷ rows) ≡ pending free rows
unfolding pending
pending_published r rows h = ground (arith, h)

pending_waiting :
    (r : OutboxRow) (rows : List OutboxRow)
    → r.published ≡ false
    → pending free (r ∷ rows) ≡ r ∷ pending free rows
unfolding pending
pending_waiting r rows h = ground (arith, h)

elem-head : (n : ℕ) (ids : List ℕ) → elem n (n ∷ ids) ≡ true
unfolding elem
elem-head n ids = ground arith

pending-IsCovered : (rows : List OutboxRow) → All (IsCovered (ids_of (pending free rows))) rows
pending-IsCovered [] = tt
pending-IsCovered (r ∷ rows) =
    let covers = λ (p : List OutboxRow). All (IsCovered (ids_of p)) (r ∷ rows) in
    let ids = ids_of (pending free rows) in
    elim (Bool-cases r.published) [
      | inl published ↦
          subst covers (sym (pending_published r rows published))
            (inl published, pending-IsCovered rows)
      | inr waiting ↦
          subst covers (sym (pending_waiting r rows waiting))
            (inr (elem-head r.id ids), IsCovered-more r.id ids rows (pending-IsCovered rows))
    ]

marked-pending :
    (ids : List ℕ) (rows : List OutboxRow)
    → All (IsCovered ids) rows
    → pending free (map (mark_row ids) rows) ≡ []
unfolding pending mark_row
marked-pending ids [] h = refl
marked-pending ids (r ∷ rows) (c, h) = ground (arith, c, marked-pending ids rows h)

take_all : (n : ℕ) (rows : List OutboxRow) → length rows ≤ n → take n rows ≡ rows
take_all zero [] h = refl
take_all zero (r ∷ rows) h = absurd (omega (arith, h))
take_all (suc n) [] h = refl
take_all (suc n) (r ∷ rows) h = ap (λ l. r ∷ l) (take_all n rows (omega (arith, h)))

module _ {W : Type 0} {publish : RecordPublisher W} {log : W → List Sent} (bus : IsBus publish log)
    (parse : Str → List (Str × Str)) (ctx : Context) where
  -- The bus takes every record.
  abbrev pub Accepts : Type 0
  Accepts =
      (topic key value : Str) (headers : List (Str × Str)) (w : W)
      → is_err (publish ctx topic key value headers w).0 ≡ false

  ship_accepted :
      (rows : List OutboxRow) (w : W)
      → Accepts
      → (is_err (ship publish parse ctx rows w).0 ≡ false)
        × (log (ship publish parse ctx rows w).1 ≡ log w ++ map sent rows)
  unfolding ship
  ship_accepted [] w a = (refl, sym (append-nil (log w)))
  ship_accepted (r ∷ rows) w a =
      let headers = headers_of parse r.headers in
      let e = a r.topic r.partition_key r.payload headers w in
      let first = bus.accepts ctx r.topic r.partition_key r.payload headers w e in
      let (fine, grown) = ship_accepted rows (publish ctx _ _ _ _ w).1 a in
      rw e (
        fine,
        grown
            ∙ ap (λ l. l ++ map sent rows) first
            ∙ append_assoc (log w) (sent r ∷ []) (map sent rows),
      )

  -- The tick that began with this outbox and this world has put exactly the pending rows on the bus,
  -- in the order of the outbox, has counted them, and leaves none pending.
  pub record IsDrained (db : Db) (w : W) (r : ℕ × GoError × Db × W) : Type 0 where
    pub count : r.0 ≡ length (pending free db.outbox)
    pub no_error : r.1 ≡ nil
    pub none_left : pending free r.2.outbox ≡ []
    pub on_bus : log r.3 ≡ log w ++ map sent (pending free db.outbox)

  ship_claimed-IsDrained :
      (rows : List OutboxRow) (db : Db) (w : W)
      → Accepts
      → rows ≡ pending free db.outbox
      → IsDrained db w (ship_claimed publish parse ctx no_fault rows db w)
  unfolding ship_claimed commit_marks
  ship_claimed-IsDrained [] db w a e = record {
    count = ap length e;
    no_error = refl;
    none_left = sym e;
    on_bus = sym (append-nil (log w)) ∙ ap (λ rows. log w ++ map sent rows) e;
  }
  ship_claimed-IsDrained (r ∷ rows) db w a e =
      let (fine, grown) = ship_accepted (r ∷ rows) w a in
      rw fine (record {
        count = ap length e;
        no_error = refl;
        none_left = marked-pending (ids_of (r ∷ rows)) db.outbox (
            subst (λ p. All (IsCovered (ids_of p)) db.outbox) (sym e)
              (pending-IsCovered db.outbox));
        on_bus = grown ∙ ap (λ rows. log w ++ map sent rows) e;
      })

  -- Over a bus that logs each record which it takes, and takes every one, let a tick meet no fault and
  -- have a batch that holds all pending rows. It puts exactly the topics, keys and payloads of these
  -- on the bus, in the order of the outbox, returns their number and leaves none pending.
  pub publish_pending-IsDrained :
      (batch : ℕ) (db : Db) (w : W)
      → Accepts
      → length (pending free db.outbox) ≤ batch
      → IsDrained db w (publish_pending publish parse ctx batch no_fault db w)
  unfolding publish_pending
  publish_pending-IsDrained batch db w a fits =
      subst (λ rows. IsDrained db w (ship_claimed publish parse ctx no_fault rows db w))
        (sym (take_all batch (pending free db.outbox) fits))
        (ship_claimed-IsDrained (pending free db.outbox) db w a refl)
