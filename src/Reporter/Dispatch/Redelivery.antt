-- ===== src/Reporter/Dispatch/Redelivery.antt =====
-- What a second delivery of a verdict does.
use membrane_ai.Base.{
  ◌≡◌, refl, ap, ◌∙◌, inl, inr, some, List, [], ◌∷◌, ◌++◌, Str, map, All, ==_iff, arith,
}
use membrane_ai.Base.Maps.{lookup, insert, lookup-insert}
use membrane_ai.Base.Context.{Context}
use membrane_ai.Errs.{GoError, nil, Result, ok, err}
use membrane_ai.Reporter.Report.{Mode, Verdict, Report, new_report}
use membrane_ai.Reporter.Dispatch.{
  Notifier, Deliveries, key, lift_notifier, in_memory, new_dispatch_verdict, deliver, deliver_all,
  conclude, dispatch, handle,
}
use membrane_ai.Reporter.Dispatch.Steps.{deliver-cases}

pub insert-keeps :
    (k j : Str) (m : List (Str × Unit {0}))
    → lookup k m ≡ some tt
    → lookup k (insert j tt m) ≡ some tt
insert-keeps k j m h = rw lookup-insert (ground (arith, h))

pub insert-finds : (k : Str) (m : List (Str × Unit {0})) → lookup k (insert k tt m) ≡ some tt
insert-finds k m = lookup-insert k k tt m ∙ ground (arith, ==_iff k k)

module _ {W : Type 0} (mode : Mode) (notifiers : List (Notifier W)) (ctx : Context) where
  abbrev IsMarked : Report → Deliveries W → Notifier W → Type 0
  IsMarked report l n = lookup (key report.submission_id n.name) l.seen ≡ some tt

  -- What is marked in one state is marked in the other.
  abbrev Keeps : Deliveries W → Deliveries W → Type 0
  Keeps l l' = (k : Str) → lookup k l.seen ≡ some tt → lookup k l'.seen ≡ some tt

  abbrev one : Report → Notifier W → Deliveries W → List GoError × Deliveries W
  one report n l = deliver (in_memory mode notifiers) ctx report (lift_notifier n) l

  abbrev each : Report → List (Notifier W) → Deliveries W → List GoError × Deliveries W
  each report ns l = deliver_all (in_memory mode notifiers) ctx report (map lift_notifier ns) l

  -- A delivery without a failure leaves its destination marked, and every key that was.
  deliver-marks :
      (report : Report) (n : Notifier W) (l : Deliveries W)
      → (one report n l).0 ≡ []
      → IsMarked report (one report n l).1 n × Keeps l (one report n l).1
  deliver-marks report n l h = elim (deliver-cases mode notifiers ctx report n l) [
    | inl s ↦ rw s.result (s.marked, λ k marked. marked)
    | inr (inl d) ↦ rw d.result (insert-finds _ l.seen, λ k marked. insert-keeps k _ l.seen marked)
    | inr (inr f) ↦ absurd (cc (h, ap (λ r. r.0) f.result))
  ]

  nil-append : {xs ys : List GoError} → xs ++ ys ≡ [] → (xs ≡ []) × (ys ≡ [])
  nil-append {xs = []} h = (refl, h)
  nil-append {xs = x ∷ xs} h = absurd (cc h)

  deliver_all-marks :
      (report : Report) (ns : List (Notifier W)) (l : Deliveries W)
      → (each report ns l).0 ≡ []
      → All (IsMarked report (each report ns l).1) ns × Keeps l (each report ns l).1
  unfolding deliver_all
  deliver_all-marks report [] l h = (tt, λ k marked. marked)
  deliver_all-marks report (n ∷ ns) l h =
      let (first, later) = nil-append h in
      let (marked, keeps) = deliver-marks report n l first in
      let (rest, keeps') = deliver_all-marks report ns (one report n l).1 later in
      ((keeps' _ marked, rest), λ k m. keeps' k (keeps k m))

  deliver-marked :
      (report : Report) (n : Notifier W) (l : Deliveries W)
      → IsMarked report l n
      → one report n l ≡ ([], l)
  deliver-marked report n l h = elim (deliver-cases mode notifiers ctx report n l) [
    | inl s ↦ s.result
    | inr (inl d) ↦ absurd (cc (h, d.new))
    | inr (inr f) ↦ absurd (cc (h, f.new))
  ]

  deliver_all-marked :
      (report : Report) (ns : List (Notifier W)) (l : Deliveries W)
      → All (IsMarked report l) ns
      → each report ns l ≡ ([], l)
  unfolding deliver_all
  deliver_all-marked report [] l h = refl
  deliver_all-marked report (n ∷ ns) l (h, hs) =
      rw (deliver-marked report n l h) (deliver_all-marked report ns l hs)

  conclude-nil :
      (failures : List GoError)
      → conclude (in_memory mode notifiers) ctx failures ≡ nil
      → failures ≡ []
  unfolding conclude
  conclude-nil [] h = refl
  conclude-nil (f ∷ fs) h = absurd (cc h)

  dispatch_again :
      (r : Result Report) (l : Deliveries W)
      → (dispatch (in_memory mode notifiers) ctx r l).0 ≡ nil
      → dispatch (in_memory mode notifiers) ctx r (dispatch (in_memory mode notifiers) ctx r l).1
        ≡ (nil, (dispatch (in_memory mode notifiers) ctx r l).1)
  unfolding dispatch in_memory new_dispatch_verdict
  dispatch_again (err er) l h = ap (λ x. (x, l)) h
  dispatch_again (ok report) l h =
      let none_failed = conclude-nil (each report notifiers l).0 h in
      let (marked, _) = deliver_all-marks report notifiers l none_failed in
      rw (deliver_all-marked report notifiers (each report notifiers l).1 marked)
        (unfold conclude in refl)

  -- Once `Handle` has returned without an error, the redelivery of the same verdict notifies
  -- nobody: it returns no error and leaves the log and the world as they are.
  pub handle_again :
      (v : Verdict) (l : Deliveries W)
      → (handle (in_memory mode notifiers) ctx v l).0 ≡ nil
      → handle (in_memory mode notifiers) ctx v (handle (in_memory mode notifiers) ctx v l).1
        ≡ (nil, (handle (in_memory mode notifiers) ctx v l).1)
  unfolding handle
  handle_again v l h = dispatch_again (new_report v (in_memory mode notifiers).mode) l h
