-- ===== src/Reporter/Tests/Delivered.antt =====
-- The theorems on reports and deliveries at concrete verdicts.
use membrane_ai.Base.{◌≡◌, refl, List, [], ◌∷◌, Str, bytes, map}
use membrane_ai.Base.Context.{background}
use membrane_ai.Errs.{nil, plain, kind_of, unavailable}
use membrane_ai.Reporter.Report.{enforce}
use membrane_ai.Reporter.Dispatch.{Deliveries, in_memory, lift_notifier, key, handle}
use membrane_ai.Reporter.Dispatch.Redelivery.{handle_again}
use membrane_ai.Reporter.Dispatch.AtMostOnce.{
  IsOnce, handle_all, tallied, successes, handle_all-IsOnce,
}
use membrane_ai.Reporter.Dispatch.Failures.{unmark_failure_loses}
use membrane_ai.Reporter.Tests.{
  run, verdict, report, webhook, broken, start, forgetful, verdict_reported,
}

handle_again_example :
    handle
      (in_memory enforce (webhook ∷ []))
      background
      verdict
      (handle (in_memory enforce (webhook ∷ [])) background verdict start).1
    ≡ (nil, (handle (in_memory enforce (webhook ∷ [])) background verdict start).1)
unfolding run
handle_again_example = handle_again enforce (webhook ∷ []) background verdict start refl

abbrev tally : Deliveries (List Str × List Str)
tally = record { seen = []; outside = ([], []) }

handle_all-IsOnce_example : IsOnce successes (
    handle_all enforce
      (map tallied (webhook ∷ broken ∷ []))
      background
      (verdict ∷ verdict ∷ [])
      tally)
handle_all-IsOnce_example =
    handle_all-IsOnce enforce (webhook ∷ broken ∷ []) background (verdict ∷ verdict ∷ []) tally
      (record { marked = tt; once = tt })

abbrev marked : Deliveries (List Str)
marked = record { seen = (key (bytes "s-1") (bytes "siem"), tt) ∷ []; outside = [] }

unmark_failure_loses_example :
    (kind_of (handle forgetful background verdict start).0 ≡ unavailable)
    × (handle forgetful background verdict (handle forgetful background verdict start).1
        ≡ (nil, marked))
unfolding run
unmark_failure_loses_example =
    unmark_failure_loses forgetful background verdict report (lift_notifier broken) start marked
      marked marked marked (plain (bytes "status 500")) (plain (bytes "redis is down"))
      verdict_reported refl refl refl refl refl refl
