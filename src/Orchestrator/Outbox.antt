-- ===== src/Orchestrator/Outbox.antt =====
-- services/orchestrator/internal/adapters/outboxstore/store.go: the transactional outbox. The
-- tables are the state `Db`; each call is given what PostgreSQL answers to its statements. `W` is
-- the world of the bus.
pub mod Marks
pub mod Delivery
pub mod Safety
pub mod AtLeastOnce
pub mod Progress
use membrane_ai.Base.{
  ℕ, zero, suc, Bool, true, false, ◌&&◌, ◌||◌, not, List, [], ◌∷◌, ◌++◌, map, Str, bytes, length,
  take, eqb, if◌then◌else◌,
}
use membrane_ai.Base.Context.{Context}
use membrane_ai.Errs.{GoError, nil, is_err, internal_err, unavailable_err, Result, ok, err, ◌>>=◌}
use membrane_ai.Orchestrator.Verdict.{
  Decision, approved, needs_review, rejected, Source, cache, pipeline, fallback, Finding, Verdict,
}

-- A row of `verdict_audit`.
pub record AuditRow : Type 0 where
  pub submission_id : Str
  pub org_id : Str
  pub verdict : Str
  pub source : Str
  pub detail : Str

-- A row of `outbox`; `published` is `published_at IS NOT NULL`.
pub record OutboxRow : Type 0 where
  pub id : ℕ
  pub aggregate : Str
  pub topic : Str
  pub partition_key : Str
  pub payload : Str
  pub headers : Str
  pub published : Bool

-- The tables, the outbox in the order of its ids, and the sequence that gives the next id.
pub record Db : Type 0 where
  pub audit : List AuditRow
  pub outbox : List OutboxRow
  pub next_id : ℕ

-- The answer to a commit: it is done, or refused, or done with the answer lost.
pub data Commit : Type 0 where
  done : Commit
  refused : GoError → Commit
  lost : GoError → Commit

-- `codec.EncodeVerdict`, and the `json.Marshal` of the audit detail and of the trace headers.
pub record Encoders : Type 0 where
  pub encode_verdict : Verdict → Result Str
  pub detail : (ruleset_version : Str) → (findings : ℕ) → Result Str
  pub headers : Context → Result Str

abbrev op_outbox : Str
op_outbox = bytes "orchestrator.adapters.outboxstore"

abbrev decision_string : Decision → Str
decision_string approved = bytes "approved"
decision_string needs_review = bytes "needs_review"
decision_string rejected = bytes "rejected"
decision_string (Decision.other s) = s

abbrev source_string : Source → Str
source_string cache = bytes "cache"
source_string pipeline = bytes "pipeline"
source_string fallback = bytes "fallback"
source_string (Source.other s) = s

abbrev internally : Str → Result Str → Result Str
internally msg (ok s) = ok s
internally msg (err e) = err (internal_err op_outbox msg e)

-- What the transaction of `Publish` meets.
pub record PublishFaults : Type 0 where
  pub begin_tx : GoError
  pub insert_audit : GoError
  pub insert_outbox : GoError
  pub commit : Commit

-- The rows that `Publish` inserts.
unfoldable pub with_rows : AuditRow → OutboxRow → Db → Db
with_rows a r db = record {
  audit = db.audit ++ a ∷ [];
  outbox = db.outbox ++ r ∷ [];
  next_id = suc db.next_id;
}

-- A sequence is not rolled back.
unfoldable pub commit_rows : Commit → AuditRow → OutboxRow → Db → GoError × Db
unfolding with_rows
commit_rows done a r db = (nil, with_rows a r db)
commit_rows (refused e) a r db =
    (unavailable_err op_outbox (bytes "commit tx") e, record db { next_id = suc db.next_id })
commit_rows (lost e) a r db = (unavailable_err op_outbox (bytes "commit tx") e, with_rows a r db)

unfoldable pub insert_rows : PublishFaults → AuditRow → OutboxRow → Db → GoError × Db
unfolding commit_rows
insert_rows faults a r db =
    if is_err faults.begin_tx
    then (unavailable_err op_outbox (bytes "begin tx") faults.begin_tx, db)
    else if is_err faults.insert_audit
    then (unavailable_err op_outbox (bytes "insert verdict_audit") faults.insert_audit, db)
    else if is_err faults.insert_outbox
    then (unavailable_err op_outbox (bytes "insert outbox") faults.insert_outbox, db)
    else commit_rows faults.commit a r db

abbrev pub on_encoded :
    Result (Str × Str × Str) → (Str → Str → Str → GoError × Db) → Db → GoError × Db
on_encoded (err e) insert db = (e, db)
on_encoded (ok (payload, detail, headers)) insert db = insert payload detail headers

-- `Store.Publish`
unfoldable pub store_verdict :
    Str → Encoders → PublishFaults → Context → Verdict → Db → GoError × Db
unfolding insert_rows
store_verdict topic enc faults ctx v db =
    on_encoded
      (enc.encode_verdict v >>= λ payload.
        internally (bytes "marshal audit detail") (enc.detail v.ruleset_version (length v.findings))
        >>= λ detail. internally (bytes "marshal trace headers") (enc.headers ctx) >>= λ headers.
            ok (payload, detail, headers))
      (λ payload detail headers.
        insert_rows faults
          (record {
            submission_id = v.submission_id;
            org_id = v.organization_id;
            verdict = decision_string v.decision;
            source = source_string v.source;
            detail = detail;
          })
          (record {
            id = db.next_id;
            aggregate = bytes "verdict";
            topic = topic;
            partition_key = v.organization_id;
            payload = payload;
            headers = headers;
            published = false;
          })
          db)
      db

-- `RecordPublisher`, on the topic, the key, the payload and the headers.
abbrev pub RecordPublisher : Type 0 → Type 0
RecordPublisher W = Context → Str → Str → Str → List (Str × Str) → W → GoError × W

-- What the transaction of `PublishPending` meets, with the rows that another relay has locked.
pub record RelayFaults : Type 0 where
  pub begin_tx : GoError
  pub select : GoError
  pub scan : GoError
  pub iterate : GoError
  pub mark : GoError
  pub commit : Commit
  pub locked : ℕ → Bool

-- `WHERE published_at IS NULL ORDER BY id … SKIP LOCKED`
unfoldable pub pending : (ℕ → Bool) → List OutboxRow → List OutboxRow
pending locked [] = []
pending locked (r ∷ rows) =
    let rest = pending locked rows in if r.published || locked r.id then rest else r ∷ rest

unfoldable pub elem : ℕ → List ℕ → Bool
elem n [] = false
elem n (k ∷ ks) = eqb n k || elem n ks

-- `UPDATE outbox SET published_at = now() WHERE id = ANY($1)`
unfoldable pub mark_row : List ℕ → OutboxRow → OutboxRow
unfolding elem
mark_row ids r = if elem r.id ids then record r { published = true } else r

abbrev pub ids_of : List OutboxRow → List ℕ
ids_of rows = map (λ (r : OutboxRow). r.id) rows

abbrev pub mark_rows : List OutboxRow → Db → Db
mark_rows claimed db = record db { outbox = map (mark_row (ids_of claimed)) db.outbox }

-- `parse` is `json.Unmarshal` of the headers, with no header where it fails.
abbrev pub headers_of : (Str → List (Str × Str)) → Str → List (Str × Str)
headers_of parse [] = []
headers_of parse (b ∷ headers) = parse (b ∷ headers)

abbrev pub commit_error : Commit → GoError
commit_error done = nil
commit_error (refused e) = e
commit_error (lost e) = e

module _ {W : Type 0} (publish : RecordPublisher W) (parse : Str → List (Str × Str))
    (ctx : Context) where
  -- The loop over the claimed rows, up to the first that fails.
  unfoldable pub ship : List OutboxRow → W → GoError × W
  ship [] w = (nil, w)
  ship (r ∷ rows) w =
      let (er, w') = publish ctx r.topic r.partition_key r.payload (headers_of parse r.headers) w in
      let rest = ship rows w' in if is_err er then (er, w') else rest

  -- The commit of the marks.
  unfoldable pub commit_marks : Commit → List OutboxRow → Db → W → ℕ × GoError × Db × W
  commit_marks done claimed db w = (length claimed, nil, mark_rows claimed db, w)
  commit_marks (refused e) claimed db w =
      (0, unavailable_err op_outbox (bytes "commit relay tx") e, db, w)
  commit_marks (lost e) claimed db w =
      (0, unavailable_err op_outbox (bytes "commit relay tx") e, mark_rows claimed db, w)

  -- `PublishPending` on the rows that it claimed.
  unfoldable pub ship_claimed : RelayFaults → List OutboxRow → Db → W → ℕ × GoError × Db × W
  unfolding ship commit_marks
  ship_claimed faults [] db w = (0, commit_error faults.commit, db, w)
  ship_claimed faults (r ∷ rows) db w =
      let (er, w') = ship (r ∷ rows) w in
      if is_err er
      then (0, unavailable_err op_outbox (bytes "relay publish") er, db, w')
      else if is_err faults.mark
      then (0, unavailable_err op_outbox (bytes "mark published") faults.mark, db, w')
      else commit_marks faults.commit (r ∷ rows) db w'

  -- `Store.PublishPending`
  unfoldable pub publish_pending : ℕ → RelayFaults → Db → W → ℕ × GoError × Db × W
  unfolding ship_claimed
  publish_pending batch faults db w =
      if is_err faults.begin_tx
      then (0, unavailable_err op_outbox (bytes "begin relay tx") faults.begin_tx, db, w)
      else if is_err faults.select
      then (0, unavailable_err op_outbox (bytes "select pending") faults.select, db, w)
      else if is_err faults.scan
      then (0, internal_err op_outbox (bytes "scan pending") faults.scan, db, w)
      else if is_err faults.iterate
      then (0, unavailable_err op_outbox (bytes "iterate pending") faults.iterate, db, w)
      else ship_claimed faults (take batch (pending faults.locked db.outbox)) db w
