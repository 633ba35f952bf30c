-- ===== src/Orchestrator/Outbox/Delivery.antt =====
-- What holds of the tables and the bus over any sequence of calls, whatever fails in them.
use mathlib.Core.Path.{subst}
use mathlib.Core.List.{append_assoc, append-nil}
use membrane_ai.Base.{
  ℕ, ◌≡◌, refl, sym, ap, ◌∙◌, inl, inr, true, false, List, [], ◌∷◌, ◌++◌, Str, map, All, Any,
  Bool-cases,
}
use membrane_ai.Base.Context.{Context}
use membrane_ai.Errs.{is_err}
use membrane_ai.Orchestrator.Outbox.{OutboxRow, RecordPublisher, elem, mark_row, headers_of, ship}

-- A record on the bus.
pub record Sent : Type 0 where
  pub topic : Str
  pub key : Str
  pub value : Str

abbrev pub sent : OutboxRow → Sent
sent r = record { topic = r.topic; key = r.partition_key; value = r.payload }

abbrev pub IsOn : List Sent → OutboxRow → Type 0
IsOn log r = Any (λ y. y ≡ sent r) log

-- One log continues another.
abbrev pub Continues : List Sent → List Sent → Type 0
Continues before later = (more : List Sent) × (later ≡ before ++ more)

Any-append : (P : Sent → Type 0) (xs ys : List Sent) → Any P xs → Any P (xs ++ ys)
Any-append P [] ys h = elim h [ ]
Any-append P (x ∷ xs) ys (inl p) = inl p
Any-append P (x ∷ xs) ys (inr h) = inr (Any-append P xs ys h)

Any-last : (P : Sent → Type 0) (xs : List Sent) (y : Sent) → P y → Any P (xs ++ y ∷ [])
Any-last P [] y p = inl p
Any-last P (x ∷ xs) y p = inr (Any-last P xs y p)

IsOn-Continues :
    (before later : List Sent) (r : OutboxRow)
    → Continues before later
    → IsOn before r
    → IsOn later r
IsOn-Continues before later r (more, e) h =
    subst (λ l. IsOn l r) (sym e) (Any-append (λ y. y ≡ sent r) before more h)

Continues-trans : (a b c : List Sent) → Continues a b → Continues b c → Continues a c
Continues-trans a b c (m, e) (n, f) = (m ++ n, f ∙ ap (λ l. l ++ n) e ∙ append_assoc a m n)

-- What the producer promises: a record that it accepts is on the bus, one that it reports as
-- failed may be, and none goes away.
pub record IsBus {W : Type 0} (publish : RecordPublisher W) (log : W → List Sent) : Type 0 where
  pub accepts :
      (ctx : Context) (topic key value : Str) (headers : List (Str × Str)) (w : W)
      → is_err (publish ctx topic key value headers w).0 ≡ false
      → log (publish ctx topic key value headers w).1
        ≡ log w ++ record { topic = topic; key = key; value = value } ∷ []
  pub continues :
      (ctx : Context) (topic key value : Str) (headers : List (Str × Str)) (w : W)
      → Continues (log w) (log (publish ctx topic key value headers w).1)

module _ {W : Type 0} {publish : RecordPublisher W} {log : W → List Sent} (bus : IsBus publish log)
    (parse : Str → List (Str × Str)) (ctx : Context) where
  pub ship-Continues :
      (rows : List OutboxRow) (w : W) → Continues (log w) (log (ship publish parse ctx rows w).1)
  unfolding ship
  ship-Continues [] w = ([], sym (append-nil (log w)))
  ship-Continues (r ∷ rows) w =
      let (er, w') = publish ctx r.topic r.partition_key r.payload (headers_of parse r.headers) w in
      let first =
        bus.continues ctx r.topic r.partition_key r.payload (headers_of parse r.headers) w in
      elim (Bool-cases (is_err er)) [
        | inl failed ↦ rw failed first
        | inr passed ↦ rw passed (Continues-trans (log w) (log w') _ first (ship-Continues rows w'))
      ]

  pub ship-IsOn :
      (rows : List OutboxRow) (w : W)
      → is_err (ship publish parse ctx rows w).0 ≡ false
      → All (IsOn (log (ship publish parse ctx rows w).1)) rows
  unfolding ship
  ship-IsOn [] w h = tt
  ship-IsOn (r ∷ rows) w h =
      let (er, w') = publish ctx r.topic r.partition_key r.payload (headers_of parse r.headers) w in
      elim (Bool-cases (is_err er)) [
        | inl failed ↦ absurd (cc (failed, rw (failed, ship) at h))
        | inr passed ↦
            let accepted =
              bus.accepts ctx r.topic r.partition_key r.payload (headers_of parse r.headers) w
                passed in
            let on : IsOn (log w') r =
              subst (λ l. IsOn l r) (sym accepted)
                (Any-last (λ y. y ≡ sent r) (log w) (sent r) refl) in
            let same : ship publish parse ctx (r ∷ rows) w ≡ ship publish parse ctx rows w' =
              rw passed refl in
            subst (λ x. All (IsOn (log x.1)) (r ∷ rows)) (sym same)
              (
                IsOn-Continues (log w') _ r (ship-Continues rows w') on,
                ship-IsOn rows w' (rw (passed, ship) at h),
              )
      ]

-- A row that is marked as published is on the bus.
abbrev pub IsDelivered : List Sent → OutboxRow → Type 0
IsDelivered log r = r.published ≡ true → IsOn log r

mark_row-IsDelivered :
    (before later : List Sent) (ids : List ℕ) (r : OutboxRow)
    → Continues before later
    → IsDelivered before r
    → (elem r.id ids ≡ true → IsOn later r)
    → IsDelivered later (mark_row ids r)
unfolding mark_row
mark_row-IsDelivered before later ids r c d h = elim (Bool-cases (elem r.id ids)) [
  | inl marked ↦ rw marked (λ _. h marked)
  | inr other ↦ rw other (λ e. IsOn-Continues before later r c (d e))
]

pub mark_rows-IsDelivered :
    (before later : List Sent) (ids : List ℕ) (rows : List OutboxRow)
    → Continues before later
    → All (IsDelivered before) rows
    → All (λ (r : OutboxRow). elem r.id ids ≡ true → IsOn later r) rows
    → All (IsDelivered later) (map (mark_row ids) rows)
mark_rows-IsDelivered before later ids [] c d h = tt
mark_rows-IsDelivered before later ids (r ∷ rows) c (d, ds) (h, hs) = (
  mark_row-IsDelivered before later ids r c d h,
  mark_rows-IsDelivered before later ids rows c ds hs,
)

pub kept-IsDelivered :
    (before later : List Sent) (rows : List OutboxRow)
    → Continues before later
    → All (IsDelivered before) rows
    → All (IsDelivered later) rows
kept-IsDelivered before later [] c d = tt
kept-IsDelivered before later (r ∷ rows) c (d, ds) =
    ((λ e. IsOn-Continues before later r c (d e)), kept-IsDelivered before later rows c ds)
