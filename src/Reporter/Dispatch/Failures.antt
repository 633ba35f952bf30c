-- ===== src/Reporter/Dispatch/Failures.antt =====
-- What an error of `Handle` means to the consumer of the bus.
use membrane_ai.Base.{
  ◌≡◌, ◌≢◌, refl, ap, ◌∙◌, sym, ◌⊎◌, inl, inr, true, false, List, [], ◌∷◌, arith,
}
use membrane_ai.Base.Context.{Context}
use membrane_ai.Errs.{GoError, nil, is_err, kind_of, Result-cases, validation, unavailable, ok, err}
use membrane_ai.Reporter.Report.{Verdict, Report, new_report}
use membrane_ai.Reporter.Report.Outcomes.{new_report-validation}
use membrane_ai.Reporter.Dispatch.{
  Notifier, DispatchVerdict, deliver, deliver_all, conclude, dispatch, handle,
}

module _ {E : Type 0} (uc : DispatchVerdict E) (ctx : Context) where
  -- A poison message: the verdict cannot be reported, and nothing was touched.
  pub record IsPoison (v : Verdict) (e : E) : Type 0 where
    pub unreported : new_report v uc.mode ≡ err (handle uc ctx v e).0
    pub kind : kind_of (handle uc ctx v e).0 ≡ validation
    pub untouched : (handle uc ctx v e).1 ≡ e

  -- A destination failed.
  pub record IsRetryable (v : Verdict) (e : E) : Type 0 where
    pub reported : (r : Report) × (new_report v uc.mode ≡ ok r)
    pub kind : kind_of (handle uc ctx v e).0 ≡ unavailable

  conclude-unavailable :
      (failures : List GoError)
      → conclude uc ctx failures ≢ nil
      → kind_of (conclude uc ctx failures) ≡ unavailable
  unfolding conclude kind_of
  conclude-unavailable failures h = ground (arith, h)

  dispatch-unavailable :
      (r : Report) (e : E)
      → (dispatch uc ctx (ok r) e).0 ≢ nil
      → kind_of (dispatch uc ctx (ok r) e).0 ≡ unavailable
  unfolding dispatch
  dispatch-unavailable r e h = conclude-unavailable _ h

  -- An error of `Handle` is a validation error of a verdict that cannot be reported, which leaves the
  -- world as it is, or an unavailable one of a verdict that can.
  pub handle-errors :
      (v : Verdict) (e : E) → (handle uc ctx v e).0 ≢ nil → IsPoison v e ⊎ IsRetryable v e
  unfolding handle
  handle-errors v e h = elim (Result-cases (new_report v uc.mode)) [
    | inl (r, reported) ↦ inr (record {
      reported = (r, reported);
      kind = rw reported (dispatch-unavailable r e (rw (reported, handle) at h));
    })
    | inr (x, unreported) ↦
        let same : handle uc ctx v e ≡ (x, e) =
          ap (λ r. dispatch uc ctx r e) unreported ∙ unfold dispatch in refl in
        inl (record {
          unreported = unreported ∙ ap (λ r. err r.0) (sym same);
          kind = ap (λ r. kind_of r.0) same ∙ new_report-validation v uc.mode x unreported;
          untouched = ap (λ r. r.1) same;
        })
  ]

  -- A notification is lost where the log cannot take its mark back: the first call fails as
  -- unavailable, and the redelivery, which finds the mark, returns no error and has notified nobody.
  pub unmark_failure_loses :
      (v : Verdict) (r : Report) (n : Notifier E) (e e1 e2 e3 e4 : E) (failure fault : GoError)
      → new_report v uc.mode ≡ ok r
      → uc.notifiers ≡ n ∷ []
      → uc.deliveries.mark_if_new ctx r.submission_id n.name e ≡ (true, nil, e1)
      → n.notify ctx r e1 ≡ (failure, e2)
      → is_err failure ≡ true
      → uc.deliveries.unmark ctx r.submission_id n.name e2 ≡ (fault, e3)
      → uc.deliveries.mark_if_new ctx r.submission_id n.name e3 ≡ (false, nil, e4)
      → (kind_of (handle uc ctx v e).0 ≡ unavailable)
        × (handle uc ctx v (handle uc ctx v e).1 ≡ (nil, e4))
  unmark_failure_loses v r n e e1 e2 e3 e4 failure fault reported only new notified failed unmarked
        kept =
      let first : handle uc ctx v e ≡ (conclude uc ctx (failure ∷ []), e3) =
        unfold handle dispatch deliver_all deliver in
        rw (reported, only, new, notified, unmarked, failed) refl in
      let second : handle uc ctx v e3 ≡ (nil, e4) =
        unfold handle dispatch deliver_all deliver conclude in rw (reported, only, kept) refl in
      (
        ap (λ x. kind_of x.0) first ∙ unfold conclude kind_of in refl,
        ap (λ x. handle uc ctx v x.1) first ∙ second,
      )
