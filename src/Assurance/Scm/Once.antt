-- ===== src/Assurance/Scm/Once.antt =====
-- The log of the `IdempotentPublisher` over any sequence of calls.
use membrane_ai.Base.{
  ◌≡◌, ◌≢◌, ◌↔◌, refl, ap, ◌∙◌, Bool, true, false, Option, none, some, List, [], ◌∷◌, Str, ◌==◌,
  ==_iff, arith, if◌then◌else◌, inl, inr, Bool-cases,
}
use membrane_ai.Base.Maps.{lookup, lookup-insert}
use membrane_ai.Errs.{GoError, is_err}
use membrane_ai.Assurance.Scm.{
  ScmStatus, Publisher, key_of, same_state, is_seen, Idempotent, new_idempotent_publisher, recorded,
  publish_once,
}

-- The statuses that have been delivered, the latest first.
abbrev with_delivery : ScmStatus → Bool → List ScmStatus → List ScmStatus
with_delivery s true older = s ∷ older
with_delivery s false older = older

module _ {W : Type 0} (inner : Publisher W) where
  pub publish_all : List ScmStatus → Idempotent W → List ScmStatus → Idempotent W × List ScmStatus
  publish_all [] p delivered = (p, delivered)
  publish_all (s ∷ rest) p delivered =
      let (p', done, e) = publish_once inner p s in
      publish_all rest p' (with_delivery s done delivered)

-- The state that was delivered last under the key.
pub last_state : Str → List ScmStatus → Option Str
last_state key [] = none
last_state key (s ∷ older) = if key_of s == key then some s.state else last_state key older

-- Every delivery under a key has another state than the one before it.
abbrev pub IsFresh : List ScmStatus → Type 0
IsFresh [] = Unit
IsFresh (s ∷ older) = (last_state (key_of s) older ≢ some s.state) × IsFresh older

abbrev Logs : {W : Type 0} → Idempotent W → List ScmStatus → Type 0
Logs p delivered = (key : Str) → lookup key p.seen ≡ last_state key delivered

record IsOnce {W : Type 0} (p : Idempotent W) (delivered : List ScmStatus) : Type 0 where
  logged : Logs p delivered
  fresh : IsFresh delivered

same_state_iff : (o : Option Str) (state : Str) → (same_state o state ≡ true) ↔ (o ≡ some state)
unfolding same_state
same_state_iff none state = ground arith
same_state_iff (some prev) state = ground (arith, ==_iff prev state)

module _ {W : Type 0} (p : Idempotent W) (s : ScmStatus) (delivered : List ScmStatus) where
  -- A status that is not in the log is fresh, and its delivery is logged.
  recorded-IsOnce :
      (answer : W × GoError)
      → is_seen p.seen s ≡ false
      → IsOnce p delivered
      → IsOnce (recorded p s answer).0 (with_delivery s (recorded p s answer).1 delivered)
  unfolding is_seen last_state
  recorded-IsOnce (w, e) unseen h = elim (Bool-cases (is_err e)) [
    | inl failed ↦ rw failed (record { logged = h.logged; fresh = h.fresh })
    | inr sent ↦ rw sent (record {
      logged = λ key.
          lookup-insert (key_of s) key s.state p.seen
          ∙ ap (λ o. if key_of s == key then some s.state else o) (h.logged key);
      fresh = (
        λ e.
            let seen =
              (same_state_iff (lookup (key_of s) p.seen) s.state).1 (h.logged (key_of s) ∙ e) in
            cc (seen, unseen),
        h.fresh,
      );
    })
  ]

module _ {W : Type 0} (inner : Publisher W) where
  publish_once-IsOnce :
      (p : Idempotent W) (s : ScmStatus) (delivered : List ScmStatus)
      → IsOnce p delivered
      → IsOnce (publish_once inner p s).0 (with_delivery s (publish_once inner p s).1 delivered)
  unfolding publish_once
  publish_once-IsOnce p s delivered h = elim (Bool-cases (is_seen p.seen s)) [
    | inl seen ↦ rw seen h
    | inr unseen ↦ rw unseen (recorded-IsOnce p s delivered (inner p.world s) unseen h)
  ]

  publish_all-IsOnce :
      (statuses : List ScmStatus) (p : Idempotent W) (delivered : List ScmStatus)
      → IsOnce p delivered
      → IsOnce (publish_all inner statuses p delivered).0 (publish_all inner statuses p delivered).1
  unfolding publish_all
  publish_all-IsOnce [] p delivered h = h
  publish_all-IsOnce (s ∷ rest) p delivered h =
      publish_all-IsOnce rest (publish_once inner p s).0
        (with_delivery s (publish_once inner p s).1 delivered) (publish_once-IsOnce p s delivered h)

new-IsOnce : {W : Type 0} (w : W) → IsOnce (new_idempotent_publisher w) []
unfolding lookup last_state
new-IsOnce w = record { logged = λ key. refl; fresh = tt }

-- Over any sequence of calls on a fresh log, whatever the inner publisher answers, a status is
-- delivered only if the delivery before it under its key had another state or there was none; and
-- the log holds, for every key, the state that was delivered last.
pub publish_all-IsFresh :
    {W : Type 0} (inner : Publisher W) (statuses : List ScmStatus) (w : W)
    → IsFresh (publish_all inner statuses (new_idempotent_publisher w) []).1
      × ((key : Str)
          → lookup key (publish_all inner statuses (new_idempotent_publisher w) []).0.seen
            ≡ last_state key (publish_all inner statuses (new_idempotent_publisher w) []).1)
publish_all-IsFresh inner statuses w =
    let once = publish_all-IsOnce inner statuses (new_idempotent_publisher w) [] (new-IsOnce w) in
    (once.fresh, once.logged)
