-- ===== src/Orchestrator/Outbox/AtLeastOnce.antt =====
-- The relay keeps the tables safe, and with it any sequence of calls.
use mathlib.Core.Path.{subst}
use membrane_ai.Base.{
  ℕ, ◌<◌, ◌≡◌, ◌≢◌, sym, inl, inr, List, [], ◌∷◌, Str, map, All, arith, Bool-cases, both_branches,
}
use membrane_ai.Base.Context.{Context}
use membrane_ai.Errs.{GoError, is_err}
use membrane_ai.Orchestrator.Outbox.{
  AuditRow, OutboxRow, Db, Commit, done, refused, lost, RelayFaults, RecordPublisher, mark_row,
  ids_of, mark_rows, ship, commit_marks, ship_claimed, publish_pending,
}
use membrane_ai.Orchestrator.Outbox.Marks.{Sublist, pending-Sublist, IsDistinct, claimed_among}
use membrane_ai.Orchestrator.Outbox.Delivery.{
  Sent, IsOn, Continues, IsBus, ship-Continues, ship-IsOn, mark_rows-IsDelivered, kept-IsDelivered,
}
use membrane_ai.Orchestrator.Outbox.Safety.{
  Step, stored, relayed, Steps, IsPaired, IsSafe, store_verdict-IsSafe,
}

mark_row_same :
    (ids : List ℕ) (r : OutboxRow)
    → ((mark_row ids r).id ≡ r.id) × ((mark_row ids r).partition_key ≡ r.partition_key)
unfolding mark_row
mark_row_same ids r = ground arith

map-IsPaired :
    (ids : List ℕ) (audit : List AuditRow) (rows : List OutboxRow)
    → IsPaired audit rows
    → IsPaired audit (map (mark_row ids) rows)
map-IsPaired ids [] [] h = tt
map-IsPaired ids [] (r ∷ rows) h = elim h [ ]
map-IsPaired ids (a ∷ audit) [] h = elim h [ ]
map-IsPaired ids (a ∷ audit) (r ∷ rows) (e, h) =
    (ground (arith, e, mark_row_same ids r), map-IsPaired ids audit rows h)

-- A property of the ids outlives the marks.
map-ids :
    (P : ℕ → Type 0) (ids : List ℕ) (rows : List OutboxRow)
    → All (λ (r : OutboxRow). P r.id) rows
    → All (λ (r : OutboxRow). P r.id) (map (mark_row ids) rows)
map-ids P ids [] h = tt
map-ids P ids (r ∷ rows) (p, h) = (subst P (sym (mark_row_same ids r).0) p, map-ids P ids rows h)

map-IsDistinct :
    (ids : List ℕ) (rows : List OutboxRow) → IsDistinct rows → IsDistinct (map (mark_row ids) rows)
map-IsDistinct ids [] d = tt
map-IsDistinct ids (r ∷ rows) (apart, d) = (
  subst (λ n. All (λ (q : OutboxRow). n ≢ q.id) (map (mark_row ids) rows))
      (sym (mark_row_same ids r).0) (map-ids (λ n. r.id ≢ n) ids rows apart),
  map-IsDistinct ids rows d,
)

module _ {W : Type 0} {publish : RecordPublisher W} {log : W → List Sent} (bus : IsBus publish log)
    (parse : Str → List (Str × Str)) where
  mark_rows-IsSafe :
      (claimed : List OutboxRow) (db : Db) (w w' : W)
      → Continues (log w) (log w')
      → Sublist claimed db.outbox
      → All (IsOn (log w')) claimed
      → IsSafe log (db, w)
      → IsSafe log (mark_rows claimed db, w')
  mark_rows-IsSafe claimed db w w' c sub on s = record {
    paired = map-IsPaired (ids_of claimed) db.audit db.outbox s.paired;
    below = map-ids (λ n. n < db.next_id) (ids_of claimed) db.outbox s.below;
    distinct = map-IsDistinct (ids_of claimed) db.outbox s.distinct;
    delivered =
        mark_rows-IsDelivered (log w) (log w') (ids_of claimed) db.outbox c s.delivered
          (claimed_among (IsOn (log w')) sub s.distinct on);
  }

  kept-IsSafe :
      (db : Db) (w w' : W) → Continues (log w) (log w') → IsSafe log (db, w) → IsSafe log (db, w')
  kept-IsSafe db w w' c s = record {
    paired = s.paired;
    below = s.below;
    distinct = s.distinct;
    delivered = kept-IsDelivered (log w) (log w') db.outbox c s.delivered;
  }

  module _ (ctx : Context) where
    commit_marks-IsSafe :
        (c : Commit) (claimed : List OutboxRow) (db : Db) (w w' : W)
        → Continues (log w) (log w')
        → Sublist claimed db.outbox
        → All (IsOn (log w')) claimed
        → IsSafe log (db, w)
        → IsSafe log (
          (commit_marks publish parse ctx c claimed db w').2,
          (commit_marks publish parse ctx c claimed db w').3,
        )
    unfolding commit_marks
    commit_marks-IsSafe done claimed db w w' c sub on s =
        mark_rows-IsSafe claimed db w w' c sub on s
    commit_marks-IsSafe (refused e) claimed db w w' c sub on s = kept-IsSafe db w w' c s
    commit_marks-IsSafe (lost e) claimed db w w' c sub on s =
        mark_rows-IsSafe claimed db w w' c sub on s

    ship_claimed-IsSafe :
        (faults : RelayFaults) (claimed : List OutboxRow) (db : Db) (w : W)
        → Sublist claimed db.outbox
        → IsSafe log (db, w)
        → IsSafe log (
          (ship_claimed publish parse ctx faults claimed db w).2,
          (ship_claimed publish parse ctx faults claimed db w).3,
        )
    unfolding ship_claimed
    ship_claimed-IsSafe faults [] db w sub s = s
    ship_claimed-IsSafe faults (r ∷ rows) db w sub s =
        let (er, w') = ship publish parse ctx (r ∷ rows) w in
        let c = ship-Continues bus parse ctx (r ∷ rows) w in
        elim (Bool-cases (is_err er)) [
          | inl failed ↦ rw failed (kept-IsSafe db w w' c s)
          | inr shipped ↦ elim (Bool-cases (is_err faults.mark)) [
            | inl failed ↦ rw (shipped, failed) (kept-IsSafe db w w' c s)
            | inr marked ↦
                rw (shipped, marked)
                  (commit_marks-IsSafe faults.commit (r ∷ rows) db w w' c sub
                    (ship-IsOn bus parse ctx (r ∷ rows) w shipped) s)
          ]
        ]

    publish_pending-IsSafe :
        (batch : ℕ) (faults : RelayFaults) (db : Db) (w : W)
        → IsSafe log (db, w)
        → IsSafe log (
          (publish_pending publish parse ctx batch faults db w).2,
          (publish_pending publish parse ctx batch faults db w).3,
        )
    unfolding publish_pending
    publish_pending-IsSafe batch faults db w s =
        let safe = λ (r : ℕ × GoError × Db × W). IsSafe log (r.2, r.3) in
        both_branches safe (is_err faults.begin_tx) s (
          both_branches safe (is_err faults.select) s (
            both_branches safe (is_err faults.scan) s (
              both_branches safe (is_err faults.iterate) s (
                ship_claimed-IsSafe faults _ db w (pending-Sublist batch faults.locked db.outbox)
                  s))))

  Step-IsSafe : {s t : Db × W} → Step publish parse s t → IsSafe log s → IsSafe log t
  Step-IsSafe (stored topic enc faults ctx v db w) s =
      store_verdict-IsSafe log w topic enc faults ctx v db s
  Step-IsSafe (relayed ctx batch faults db w) s = publish_pending-IsSafe ctx batch faults db w s

  -- Over any sequence of `Publish` and `PublishPending` calls, whatever fails in them: the audit and
  -- the outbox have as many rows, of the same organisations in the same order, no two outbox rows
  -- share an id, and a row that is marked as published is on the bus.
  pub Steps-IsSafe : {s t : Db × W} → Steps publish parse s t → IsSafe log s → IsSafe log t
  Steps-IsSafe (Steps.none s) i = i
  Steps-IsSafe (Steps.more one rest) i = Steps-IsSafe rest (Step-IsSafe one i)
