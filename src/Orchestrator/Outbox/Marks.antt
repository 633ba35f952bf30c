-- ===== src/Orchestrator/Outbox/Marks.antt =====
-- The rows that a relay claims are rows of the outbox, and the update by ids marks no other.
use membrane_ai.Base.{
  ℕ, zero, suc, ◌≡◌, ◌≢◌, refl, Bool, true, false, ◌||◌, List, [], ◌∷◌, take, All, arith,
  Bool-cases, inl, inr,
}
use membrane_ai.Orchestrator.Outbox.{OutboxRow, pending, elem, ids_of}

-- The rows of the first list are rows of the second, in its order.
pub data Sublist : List OutboxRow → List OutboxRow → Type 0 where
  empty : {rows : List OutboxRow} → Sublist [] rows
  keep : {c rows : List OutboxRow} (r : OutboxRow) → Sublist c rows → Sublist (r ∷ c) (r ∷ rows)
  skip : {c rows : List OutboxRow} (r : OutboxRow) → Sublist c rows → Sublist c (r ∷ rows)

pub pending-Sublist :
    (n : ℕ) (locked : ℕ → Bool) (rows : List OutboxRow)
    → Sublist (take n (pending locked rows)) rows
unfolding pending
pending-Sublist zero locked rows = empty
pending-Sublist (suc n) locked [] = empty
pending-Sublist (suc n) locked (r ∷ rows) = elim (Bool-cases (r.published || locked r.id)) [
  | inl out ↦ rw out (skip r (pending-Sublist (suc n) locked rows))
  | inr free ↦ rw free (keep r (pending-Sublist n locked rows))
]

-- No two rows have one id.
abbrev pub IsDistinct : List OutboxRow → Type 0
IsDistinct [] = Unit
IsDistinct (r ∷ rows) = All (λ (q : OutboxRow). r.id ≢ q.id) rows × IsDistinct rows

elem-apart :
    {c rows : List OutboxRow} (n : ℕ)
    → Sublist c rows
    → All (λ (q : OutboxRow). n ≢ q.id) rows
    → elem n (ids_of c) ≡ false
unfolding elem
elem-apart n empty h = refl
elem-apart n (keep r s) (d, h) = ground (arith, d, elem-apart n s h)
elem-apart n (skip r s) (d, h) = elem-apart n s h

module _ (P : OutboxRow → Type 0) where
  among-keep :
      (r : OutboxRow) (ids : List ℕ) (rows : List OutboxRow)
      → All (λ (q : OutboxRow). r.id ≢ q.id) rows
      → All (λ (q : OutboxRow). elem q.id ids ≡ true → P q) rows
      → All (λ (q : OutboxRow). elem q.id (r.id ∷ ids) ≡ true → P q) rows
  unfolding elem
  among-keep r ids [] apart h = tt
  among-keep r ids (q ∷ rows) (d, apart) (p, h) =
      ((λ e. p (ground (arith, d, e))), among-keep r ids rows apart h)

  nothing_among : (rows : List OutboxRow) → All (λ (r : OutboxRow). elem r.id [] ≡ true → P r) rows
  unfolding elem
  nothing_among [] = tt
  nothing_among (r ∷ rows) = ((λ e. absurd (cc e)), nothing_among rows)

  -- What holds of the claimed rows holds of every row whose id is among theirs.
  pub claimed_among :
      {c rows : List OutboxRow}
      → Sublist c rows
      → IsDistinct rows
      → All P c
      → All (λ (r : OutboxRow). elem r.id (ids_of c) ≡ true → P r) rows
  claimed_among empty d h = nothing_among _
  claimed_among (keep r s) (apart, d) (p, h) =
      ((λ _. p), among-keep r _ _ apart (claimed_among s d h))
  claimed_among (skip r s) (apart, d) h =
      ((λ e. absurd (cc (e, elem-apart r.id s apart))), claimed_among s d h)
