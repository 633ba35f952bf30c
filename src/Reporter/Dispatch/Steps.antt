-- ===== src/Reporter/Dispatch/Steps.antt =====
-- The three ways in which a delivery to one destination goes, over the memory log.
use membrane_ai.Base.{
  ◌≡◌, refl, ◌⊎◌, inl, inr, true, false, none, some, List, [], ◌∷◌, Str, Option-cases, Bool-cases,
}
use membrane_ai.Base.Maps.{lookup, insert, delete}
use membrane_ai.Base.Context.{Context}
use membrane_ai.Errs.{is_err}
use membrane_ai.Reporter.Report.{Mode, Report}
use membrane_ai.Reporter.Dispatch.{
  Notifier, Deliveries, key, mark_if_new, unmark, lift_notifier, in_memory, new_dispatch_verdict,
  deliver,
}

module _ {W : Type 0} (mode : Mode) (notifiers : List (Notifier W)) (ctx : Context)
    (report : Report) (n : Notifier W) (l : Deliveries W) where
  abbrev pub key_of : Str
  key_of = key report.submission_id n.name

  -- The world after the notification.
  abbrev pub notified : W
  notified = (n.notify ctx report l.outside).1

  -- The destination is marked already, and nothing happens.
  pub record IsSkipped : Type 0 where
    pub marked : lookup key_of l.seen ≡ some tt
    pub result : deliver (in_memory mode notifiers) ctx report (lift_notifier n) l ≡ ([], l)

  -- It is new and the notification succeeds.
  pub record IsDone : Type 0 where
    pub new : lookup key_of l.seen ≡ none
    pub success : is_err (n.notify ctx report l.outside).0 ≡ false
    pub result :
        deliver (in_memory mode notifiers) ctx report (lift_notifier n) l
        ≡ ([], record { seen = insert key_of tt l.seen; outside = notified })

  -- It is new and the notification fails: the mark is taken back.
  pub record IsFailed : Type 0 where
    pub new : lookup key_of l.seen ≡ none
    pub failure : is_err (n.notify ctx report l.outside).0 ≡ true
    pub result : deliver (in_memory mode notifiers) ctx report (lift_notifier n) l ≡ (
      (n.notify ctx report l.outside).0 ∷ [],
      record { seen = delete key_of (insert key_of tt l.seen); outside = notified },
    )

  pub deliver-cases : IsSkipped ⊎ (IsDone ⊎ IsFailed)
  unfolding deliver in_memory new_dispatch_verdict lift_notifier mark_if_new unmark
  deliver-cases = elim (Option-cases (lookup key_of l.seen)) [
    | inl new ↦ elim (Bool-cases (is_err (n.notify ctx report l.outside).0)) [
      | inl failure ↦
          inr (inr (record { new = new; failure = failure; result = rw new (rw failure refl) }))
      | inr success ↦
          inr (inl (record { new = new; success = success; result = rw new (rw success refl) }))
    ]
    | inr (_, marked) ↦ inl (record { marked = marked; result = rw marked refl })
  ]
