-- ===== src/Reporter/Dispatch/AtMostOnce.antt =====
-- No destination is notified with success twice of a submission, whatever is redelivered.
use mathlib.Core.Path.{subst}
use membrane_ai.Base.{
  ◌≡◌, ◌≢◌, sym, ◌∙◌, inl, inr, true, false, none, some, List, [], ◌∷◌, ◌++◌, Str, map, All,
  All-append, ==_iff, arith, refl, if◌then◌else◌,
}
use membrane_ai.Base.Maps.{lookup, insert, delete, lookup-insert, lookup-delete}
use membrane_ai.Base.Context.{Context}
use membrane_ai.Errs.{is_err, Result, ok, err}
use membrane_ai.Reporter.Report.{Mode, Verdict, Report, new_report}
use membrane_ai.Reporter.Dispatch.{
  Notifier, Deliveries, key, lift_notifier, in_memory, new_dispatch_verdict, deliver, deliver_all,
  dispatch, handle,
}
use membrane_ai.Reporter.Dispatch.Steps.{IsDone, IsFailed, deliver-cases}
use membrane_ai.Reporter.Dispatch.Redelivery.{insert-keeps, insert-finds}

-- No key occurs twice.
abbrev pub NoRepeat : List Str → Type 0
NoRepeat [] = Unit
NoRepeat (k ∷ ks) = All (λ j. k ≢ j) ks × NoRepeat ks

NoRepeat-append :
    (ks : List Str) (k : Str) → All (λ j. k ≢ j) ks → NoRepeat ks → NoRepeat (ks ++ k ∷ [])
NoRepeat-append [] k apart once = (tt, tt)
NoRepeat-append (j ∷ ks) k (d, apart) (h, once) =
    (All-append _ ks (k ∷ []) h (λ e. d (sym e), tt), NoRepeat-append ks k apart once)

All-map : {P Q : Str → Type 0} → ((k : Str) → P k → Q k) → (ks : List Str) → All P ks → All Q ks
All-map f [] h = tt
All-map f (k ∷ ks) (p, h) = (f k p, All-map f ks h)

-- The state after a sequence of verdicts, redeliveries included.
unfoldable pub handle_all :
    {W : Type 0} → Mode → List (Notifier W) → Context → List Verdict → Deliveries W → Deliveries W
handle_all mode notifiers ctx [] l = l
handle_all mode notifiers ctx (v ∷ vs) l =
    handle_all mode notifiers ctx vs (handle (in_memory mode notifiers) ctx v l).1

module _ {W : Type 0} (delivered : W → List Str) where
  -- `delivered` lists the calls that have answered without an error, by their keys: a call of the
  -- notifier adds its key exactly if it does so.
  record Counts (n : Notifier W) : Type 0 where
    pub success :
        (ctx : Context) (r : Report) (w : W)
        → is_err (n.notify ctx r w).0 ≡ false
        → delivered (n.notify ctx r w).1 ≡ delivered w ++ key r.submission_id n.name ∷ []
    pub failure :
        (ctx : Context) (r : Report) (w : W)
        → is_err (n.notify ctx r w).0 ≡ true
        → delivered (n.notify ctx r w).1 ≡ delivered w

  -- Every success is marked, and none is repeated.
  pub record IsOnce (l : Deliveries W) : Type 0 where
    pub marked : All (λ k. lookup k l.seen ≡ some tt) (delivered l.outside)
    pub once : NoRepeat (delivered l.outside)

  module _ (mode : Mode) (notifiers : List (Notifier W)) (ctx : Context) where
    new-apart :
        (l : Deliveries W) (j : Str)
        → lookup j l.seen ≡ none
        → (ks : List Str) → All (λ k. lookup k l.seen ≡ some tt) ks
        → All (λ k. j ≢ k) ks
    new-apart l j new = All-map (λ k marked e. absurd (cc (new, marked, e)))

    done-IsOnce :
        (report : Report) (n : Notifier W) (l : Deliveries W)
        → Counts n
        → IsOnce l
        → IsDone mode notifiers ctx report n l
        → IsOnce (deliver (in_memory mode notifiers) ctx report (lift_notifier n) l).1
    done-IsOnce report n l c i d =
        let grown = c.success ctx report l.outside d.success in
        let k = key report.submission_id n.name in
        rw d.result (record {
          marked = subst (All (λ j. lookup j (insert k tt l.seen) ≡ some tt)) (sym grown) (
              All-append _ (delivered l.outside) (k ∷ [])
                (All-map (λ j m. insert-keeps j k l.seen m) _ i.marked)
                (insert-finds k l.seen, tt));
          once =
              subst NoRepeat (sym grown)
                (NoRepeat-append _ k (new-apart l k d.new _ i.marked) i.once);
        })

    delete-keeps :
        (k j : Str) (m : List (Str × Unit {0}))
        → lookup j m ≡ none
        → lookup k m ≡ some tt
        → lookup k (delete j (insert j tt m)) ≡ some tt
    delete-keeps k j m new marked =
        lookup-delete j k (insert j tt m)
        ∙ rw lookup-insert (ground (arith, ==_iff j k, new, marked))

    failed-IsOnce :
        (report : Report) (n : Notifier W) (l : Deliveries W)
        → Counts n
        → IsOnce l
        → IsFailed mode notifiers ctx report n l
        → IsOnce (deliver (in_memory mode notifiers) ctx report (lift_notifier n) l).1
    failed-IsOnce report n l c i f =
        let same = c.failure ctx report l.outside f.failure in
        let k = key report.submission_id n.name in
        rw f.result (record {
          marked =
              subst (All (λ j. lookup j (delete k (insert k tt l.seen)) ≡ some tt)) (sym same)
                (All-map (λ j m. delete-keeps j k l.seen f.new m) _ i.marked);
          once = subst NoRepeat (sym same) i.once;
        })

    deliver-IsOnce :
        (report : Report) (n : Notifier W) (l : Deliveries W)
        → Counts n
        → IsOnce l
        → IsOnce (deliver (in_memory mode notifiers) ctx report (lift_notifier n) l).1
    deliver-IsOnce report n l c i = elim (deliver-cases mode notifiers ctx report n l) [
      | inl s ↦ rw s.result i
      | inr (inl d) ↦ done-IsOnce report n l c i d
      | inr (inr f) ↦ failed-IsOnce report n l c i f
    ]

    deliver_all-IsOnce :
        (report : Report) (ns : List (Notifier W)) (l : Deliveries W)
        → All Counts ns
        → IsOnce l
        → IsOnce (deliver_all (in_memory mode notifiers) ctx report (map lift_notifier ns) l).1
    unfolding deliver_all
    deliver_all-IsOnce report [] l c i = i
    deliver_all-IsOnce report (n ∷ ns) l (c, cs) i =
        deliver_all-IsOnce report ns _ cs (deliver-IsOnce report n l c i)

    dispatch-IsOnce :
        (r : Result Report) (l : Deliveries W)
        → All Counts notifiers
        → IsOnce l
        → IsOnce (dispatch (in_memory mode notifiers) ctx r l).1
    unfolding dispatch in_memory new_dispatch_verdict
    dispatch-IsOnce (err er) l c i = i
    dispatch-IsOnce (ok report) l c i = deliver_all-IsOnce report notifiers l c i

    counted-IsOnce :
        (vs : List Verdict) (l : Deliveries W)
        → All Counts notifiers
        → IsOnce l
        → IsOnce (handle_all mode notifiers ctx vs l)
    unfolding handle_all handle
    counted-IsOnce [] l c i = i
    counted-IsOnce (v ∷ vs) l c i =
        counted-IsOnce vs _ c (dispatch-IsOnce (new_report v (in_memory mode notifiers).mode) l c i)

module _ {W : Type 0} where
  -- The notifier, with a list beside its world of the calls that answered without an error.
  abbrev pub tallied : Notifier W → Notifier (List Str × W)
  tallied n = record {
    name = n.name;
    notify = λ ctx r s.
        let (er, w) = n.notify ctx r s.1 in
        (er, ((if is_err er then s.0 else s.0 ++ key r.submission_id n.name ∷ []), w));
  }

  abbrev pub successes : List Str × W → List Str
  successes s = s.0

  tallied-Counts : (n : Notifier W) → Counts successes (tallied n)
  tallied-Counts n = record { success = λ ctx r s h. rw h refl; failure = λ ctx r s h. rw h refl }

  all-Counts : (ns : List (Notifier W)) → All (Counts successes) (map tallied ns)
  all-Counts [] = tt
  all-Counts (n ∷ ns) = (tallied-Counts n, all-Counts ns)

  -- Over any sequence of `Handle` calls with any notifiers, with redeliveries and failing
  -- destinations, no notifier answers twice without an error on the same submission, and each
  -- notification that was answered so stays marked, if this holds at the start.
  pub handle_all-IsOnce :
      (mode : Mode) (ns : List (Notifier W)) (ctx : Context) (vs : List Verdict)
      (l : Deliveries (List Str × W))
      → IsOnce successes l
      → IsOnce successes (handle_all mode (map tallied ns) ctx vs l)
  handle_all-IsOnce mode ns ctx vs l =
      counted-IsOnce successes mode (map tallied ns) ctx vs l (all-Counts ns)
