-- ===== src/Reporter/Dispatch.antt =====
-- services/reporter/internal/app/dispatch.go, ports/ports.go and adapters/memorylog/memorylog.go.
-- `E` is the state of the world outside: what the notifiers and the delivery log read and change.
pub mod Steps
pub mod Redelivery
pub mod AtMostOnce
pub mod Failures
use membrane_ai.Base.{
  Bool, true, false, not, Option, none, some, List, [], ◌∷◌, ◌++◌, map, Str, bytes, if◌then◌else◌,
}
use membrane_ai.Base.Maps.{lookup, insert, delete}
use membrane_ai.Base.Context.{Context}
use membrane_ai.Errs.{GoError, nil, is_err, unavailable_err, join, Result, ok, err}
use membrane_ai.Reporter.Report.{Mode, enforce, Verdict, Report, new_report}

pub record Notifier (E : Type 0) : Type 0 where
  pub name : Str
  pub notify : Context → Report → E → GoError × E

pub record DeliveryLog (E : Type 0) : Type 0 where
  pub mark_if_new : Context → (submission_id notifier : Str) → E → Bool × GoError × E
  pub unmark : Context → (submission_id notifier : Str) → E → GoError × E

pub record DispatchVerdict (E : Type 0) : Type 0 where
  pub notifiers : List (Notifier E)
  pub deliveries : DeliveryLog E
  pub mode : Mode

-- An empty mode is that of enforcement.
abbrev mode_or_enforce : Mode → Mode
mode_or_enforce (Mode.other []) = enforce
mode_or_enforce mode = mode

unfoldable pub new_dispatch_verdict :
    {E : Type 0} → DeliveryLog E → Mode → List (Notifier E) → DispatchVerdict E
new_dispatch_verdict deliveries mode notifiers = record {
  notifiers = notifiers;
  deliveries = deliveries;
  mode = mode_or_enforce mode;
}

abbrev op_dispatch : Str
op_dispatch = bytes "reporter.app.DispatchVerdict"

module _ {E : Type 0} (uc : DispatchVerdict E) (ctx : Context) where
  -- One round of the loop over the notifiers: the failures that it appends.
  unfoldable pub deliver : Report → Notifier E → E → List GoError × E
  deliver report n e =
      let (fresh, er, e1) = uc.deliveries.mark_if_new ctx report.submission_id n.name e in
      let (failure, e2) = n.notify ctx report e1 in
      let (_, e3) = uc.deliveries.unmark ctx report.submission_id n.name e2 in
      if is_err er
      then (er ∷ [], e1)
      else if not fresh
      then ([], e1)
      else if is_err failure
      then (failure ∷ [], e3)
      else ([], e2)

  unfoldable pub deliver_all : Report → List (Notifier E) → E → List GoError × E
  unfolding deliver
  deliver_all report [] e = ([], e)
  deliver_all report (n ∷ ns) e =
      let (failures, e') = deliver report n e in
      let (more, e'') = deliver_all report ns e' in (failures ++ more, e'')

  -- The error that the failures give.
  unfoldable pub conclude : List GoError → GoError
  conclude [] = nil
  conclude (f ∷ failures) =
      unavailable_err op_dispatch (bytes "one or more notifications failed") (join (f ∷ failures))

  unfoldable pub dispatch : Result Report → E → GoError × E
  unfolding deliver_all conclude
  dispatch (err er) e = (er, e)
  dispatch (ok report) e =
      let (failures, e') = deliver_all report uc.notifiers e in (conclude failures, e')

  -- `DispatchVerdict.Handle`
  unfoldable pub handle : Verdict → E → GoError × E
  unfolding dispatch
  handle v e = dispatch (new_report v uc.mode) e

-- The memory log, with the world `W` of the notifiers.
pub record Deliveries (W : Type 0) : Type 0 where
  pub seen : List (Str × Unit {0})
  pub outside : W

abbrev pub key : Str → Str → Str
key submission_id notifier = submission_id ++ 0 ∷ notifier

module _ {W : Type 0} where
  abbrev mark_found : Str → Option (Unit {0}) → Deliveries W → Bool × GoError × Deliveries W
  mark_found k (some _) l = (false, nil, l)
  mark_found k none l = (true, nil, record l { seen = insert k tt l.seen })

  -- `Log.MarkIfNew` and `Log.Unmark`
  unfoldable pub mark_if_new : Context → Str → Str → Deliveries W → Bool × GoError × Deliveries W
  mark_if_new ctx submission_id notifier l =
      mark_found (key submission_id notifier) (lookup (key submission_id notifier) l.seen) l

  unfoldable pub unmark : Context → Str → Str → Deliveries W → GoError × Deliveries W
  unmark ctx submission_id notifier l =
      (nil, record l { seen = delete (key submission_id notifier) l.seen })

  -- A notifier of the world outside leaves the log alone.
  unfoldable pub lift_notifier : Notifier W → Notifier (Deliveries W)
  lift_notifier n = record {
    name = n.name;
    notify = λ ctx report l.
        let (er, w) = n.notify ctx report l.outside in (er, record l { outside = w });
  }

  -- The in-memory wiring.
  unfoldable pub in_memory : Mode → List (Notifier W) → DispatchVerdict (Deliveries W)
  in_memory mode notifiers =
      new_dispatch_verdict (record { mark_if_new = mark_if_new; unmark = unmark }) mode
        (map lift_notifier notifiers)
