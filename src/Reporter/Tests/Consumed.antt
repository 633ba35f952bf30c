-- ===== src/Reporter/Tests/Consumed.antt =====
-- The theorems on the envelope and on the destinations at concrete verdicts. The world of the HTTP
-- client is the list of the requests so far, and GitHub answers 201.
use membrane_ai.Base.{
  ℕ, ◌≡◌, ◌≢◌, ◌↔◌, refl, inl, inr, some, List, [], ◌∷◌, ◌+◌, ◌++◌, bytes, ◌==◌, ==_apart,
}
use membrane_ai.Base.Int.{pos}
use membrane_ai.Errs.{nil, ok}
use membrane_ai.Orchestrator.Verdict
use membrane_ai.Orchestrator.Verdict.{approved, rejected}
use membrane_ai.Orchestrator.Saga.{background, handle, new_process_submission, VerdictPublisher}
use membrane_ai.Orchestrator.RedisCache.{RedisLib, redis_cache}
use membrane_ai.Base.Maps.{lookup}
use membrane_ai.Orchestrator.Memory.{zero_verdict, in_memory, cache_get}
use membrane_ai.Orchestrator.Codec.{decision_string}
use membrane_ai.Orchestrator.Tests.{
  analyzer, counter, digest, opts, first, empty_memory, saga, first_verdict, first_run,
}
use membrane_ai.Reporter.Report.{Report, Mode, success, failure, enforce, shadow, new_report}
use membrane_ai.Reporter.Report.Outcomes.{IsKnown}
use membrane_ai.Reporter.Consumer.Reported.{received, verdict_reported, unknown_entry_unreported}
use membrane_ai.Reporter.Notify.{
  PostRequest, HttpLib, GitHub, state_for, notify_status, answer_error, post,
}
use membrane_ai.Reporter.Tests.{run, report}
use membrane_ai.Assurance.Scm.{cut_slash}

verdict_reported_example :
    (r : Report) × (new_report (received first_verdict) enforce ≡ ok r)
    × (r.submission_id ≡ bytes "s1")
    × (r.commit_sha ≡ bytes "abc1234")
    × ((r.outcome ≡ success) ↔ (rejected ≡ approved))
    × ((r.outcome ≡ failure) ↔ ((rejected ≡ rejected) × (enforce ≢ shadow)))
unfolding run in_memory new_process_submission cache_get lookup
verdict_reported_example =
    verdict_reported saga background first digest empty_memory first_verdict enforce refl
      (λ hit. absurd (cc hit)) first_run

-- Every key holds the payload `{}`.
abbrev redis : RedisLib ℕ
redis = record {
  get = λ ctx key w. (ok (some (bytes "{}")), w);
  set = λ ctx key value ttl w. (nil, w);
  marshal = λ v. ok (bytes "{}");
  unmarshal = λ raw. ok zero_verdict;
}

abbrev bus : VerdictPublisher ℕ
bus = record { publish = λ ctx v w. (nil, w + 1) }

empty-unknown : ¬ IsKnown []
unfolding bytes ◌==◌
empty-unknown (inl e) = ==_apart [] (bytes "approved") refl e
empty-unknown (inr (inl e)) = ==_apart [] (bytes "rejected") refl e
empty-unknown (inr (inr e)) = ==_apart [] (bytes "needs_review") refl e

unknown_entry_unreported_example :
    (v : Verdict.Verdict) × ((handle
        (new_process_submission (redis_cache redis (pos 0)) [] analyzer bus counter opts)
        background
        first
        digest
        0).0
      ≡ ok v)
    × (v.submission_id ≡ bytes "s1")
    × ((mode : Mode) (r : Report) → new_report (received v) mode ≢ ok r)
unfolding decision_string
unknown_entry_unreported_example =
    unknown_entry_unreported redis (pos 0) [] analyzer bus counter opts background first digest 0
      (bytes "{}") zero_verdict refl refl empty-unknown (λ v w. refl)

abbrev http : HttpLib (List PostRequest)
http = record {
  marshal = λ p. ok (bytes "{}");
  new_request = λ url. nil;
  send = λ ctx request sent. (ok 201, sent ++ request ∷ []);
}

abbrev github : GitHub
github = record { base_url = bytes "https://api.github.com"; token = bytes "t" }

status_posted : (notify_status http github background report []).0 ≡ nil
unfolding run notify_status post answer_error cut_slash state_for
status_posted = refl
