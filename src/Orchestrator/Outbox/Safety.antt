-- ===== src/Orchestrator/Outbox/Safety.antt =====
-- The outbox as a system of steps, and what `Publish` keeps.
use mathlib.Core.Path.{subst}
use membrane_ai.Base.{
  ℕ, suc, ◌<◌, ◌≡◌, ◌≢◌, refl, sym, false, List, [], ◌∷◌, ◌++◌, Str, All, All-append, arith,
  both_branches,
}
use membrane_ai.Base.Context.{Context}
use membrane_ai.Errs.{GoError, is_err, Result, ok, err}
use membrane_ai.Orchestrator.Verdict.{Verdict}
use membrane_ai.Orchestrator.Outbox.{
  AuditRow, OutboxRow, Db, Commit, done, refused, lost, Encoders, PublishFaults, RelayFaults,
  RecordPublisher, with_rows, commit_rows, insert_rows, on_encoded, store_verdict, publish_pending,
}
use membrane_ai.Orchestrator.Outbox.Marks.{IsDistinct}
use membrane_ai.Orchestrator.Outbox.Delivery.{Sent, IsDelivered}

module _ {W : Type 0} (publish : RecordPublisher W) (parse : Str → List (Str × Str)) where
  -- One call: a verdict is stored, or the relay ticks.
  pub data Step : Db × W → Db × W → Type 0 where
    stored :
        (topic : Str) (enc : Encoders) (faults : PublishFaults) (ctx : Context) (v : Verdict)
        (db : Db) (w : W)
        → Step (db, w) ((store_verdict topic enc faults ctx v db).1, w)
    relayed :
        (ctx : Context) (batch : ℕ) (faults : RelayFaults) (db : Db) (w : W)
        → Step
            (db, w)
            (
              (publish_pending publish parse ctx batch faults db w).2,
              (publish_pending publish parse ctx batch faults db w).3,
            )

  -- Any sequence of calls.
  pub data Steps : Db × W → Db × W → Type 0 where
    none : (s : Db × W) → Steps s s
    more : {s t u : Db × W} → Step s t → Steps t u → Steps s u

-- Each audit row has its outbox row, of the same organisation, and no outbox row is without one.
abbrev pub IsPaired : List AuditRow → List OutboxRow → Type 0
IsPaired [] [] = Unit
IsPaired (a ∷ audit) (r ∷ outbox) = (a.org_id ≡ r.partition_key) × IsPaired audit outbox
IsPaired _ _ = ⊥

pub record IsSafe {W : Type 0} (log : W → List Sent) (s : Db × W) : Type 0 where
  pub paired : IsPaired s.0.audit s.0.outbox
  pub below : All (λ (r : OutboxRow). r.id < s.0.next_id) s.0.outbox
  pub distinct : IsDistinct s.0.outbox
  pub delivered : All (IsDelivered (log s.1)) s.0.outbox

IsPaired-append :
    (audit : List AuditRow) (outbox : List OutboxRow) (a : AuditRow) (r : OutboxRow)
    → a.org_id ≡ r.partition_key
    → IsPaired audit outbox
    → IsPaired (audit ++ a ∷ []) (outbox ++ r ∷ [])
IsPaired-append [] [] a r e h = (e, tt)
IsPaired-append [] (q ∷ outbox) a r e h = elim h [ ]
IsPaired-append (b ∷ audit) [] a r e h = elim h [ ]
IsPaired-append (b ∷ audit) (q ∷ outbox) a r e (d, h) = (d, IsPaired-append audit outbox a r e h)

below-IsDistinct :
    (rows : List OutboxRow) (r : OutboxRow)
    → All (λ (q : OutboxRow). q.id < r.id) rows
    → IsDistinct rows
    → IsDistinct (rows ++ r ∷ [])
below-IsDistinct [] r h d = (tt, tt)
below-IsDistinct (q ∷ rows) r (l, h) (apart, d) = (
  All-append (λ (p : OutboxRow). q.id ≢ p.id) rows (r ∷ []) apart
      ((λ e. absurd (omega (arith, l, e))), tt),
  below-IsDistinct rows r h d,
)

below-suc :
    (n : ℕ) (rows : List OutboxRow)
    → All (λ (r : OutboxRow). r.id < n) rows
    → All (λ (r : OutboxRow). r.id < suc n) rows
below-suc n [] h = tt
below-suc n (r ∷ rows) (l, h) = (omega (arith, l), below-suc n rows h)

module _ {W : Type 0} (log : W → List Sent) (w : W) where
  with_rows-IsSafe :
      (a : AuditRow) (r : OutboxRow) (db : Db)
      → a.org_id ≡ r.partition_key
      → r.id ≡ db.next_id
      → r.published ≡ false
      → IsSafe log (db, w)
      → IsSafe log (with_rows a r db, w)
  unfolding with_rows
  with_rows-IsSafe a r db e i p s = record {
    paired = IsPaired-append db.audit db.outbox a r e s.paired;
    below =
        All-append _ db.outbox (r ∷ []) (below-suc db.next_id db.outbox s.below)
          (omega (arith, i), tt);
    distinct =
        below-IsDistinct db.outbox r
          (subst (λ n. All (λ (q : OutboxRow). q.id < n) db.outbox) (sym i) s.below) s.distinct;
    delivered = All-append _ db.outbox (r ∷ []) s.delivered ((λ q. absurd (cc (p, q))), tt);
  }

  burnt-IsSafe :
      (db : Db) → IsSafe log (db, w) → IsSafe log (record db { next_id = suc db.next_id }, w)
  burnt-IsSafe db s = record {
    paired = s.paired;
    below = below-suc db.next_id db.outbox s.below;
    distinct = s.distinct;
    delivered = s.delivered;
  }

  commit_rows-IsSafe :
      (c : Commit) (a : AuditRow) (r : OutboxRow) (db : Db)
      → a.org_id ≡ r.partition_key
      → r.id ≡ db.next_id
      → r.published ≡ false
      → IsSafe log (db, w)
      → IsSafe log ((commit_rows c a r db).1, w)
  unfolding commit_rows
  commit_rows-IsSafe done a r db e i p s = with_rows-IsSafe a r db e i p s
  commit_rows-IsSafe (refused x) a r db e i p s = burnt-IsSafe db s
  commit_rows-IsSafe (lost x) a r db e i p s = with_rows-IsSafe a r db e i p s

  insert_rows-IsSafe :
      (faults : PublishFaults) (a : AuditRow) (r : OutboxRow) (db : Db)
      → a.org_id ≡ r.partition_key
      → r.id ≡ db.next_id
      → r.published ≡ false
      → IsSafe log (db, w)
      → IsSafe log ((insert_rows faults a r db).1, w)
  unfolding insert_rows
  insert_rows-IsSafe faults a r db e i p s =
      let safe = λ (x : GoError × Db). IsSafe log (x.1, w) in
      both_branches safe (is_err faults.begin_tx) s (
        both_branches safe (is_err faults.insert_audit) s (
          both_branches safe (is_err faults.insert_outbox) s
            (commit_rows-IsSafe faults.commit a r db e i p s)))

  on_encoded-IsSafe :
      (x : Result (Str × Str × Str)) (insert : Str → Str → Str → GoError × Db) (db : Db)
      → IsSafe log (db, w)
      → ((payload detail headers : Str) → IsSafe log ((insert payload detail headers).1, w))
      → IsSafe log ((on_encoded x insert db).1, w)
  on_encoded-IsSafe (err e) insert db s h = s
  on_encoded-IsSafe (ok (payload, detail, headers)) insert db s h = h payload detail headers

  pub store_verdict-IsSafe :
      (topic : Str) (enc : Encoders) (faults : PublishFaults) (ctx : Context) (v : Verdict)
      (db : Db)
      → IsSafe log (db, w)
      → IsSafe log ((store_verdict topic enc faults ctx v db).1, w)
  unfolding store_verdict
  store_verdict-IsSafe topic enc faults ctx v db s =
      on_encoded-IsSafe _ _ db s
        (λ payload detail headers. insert_rows-IsSafe faults _ _ db refl refl refl s)
