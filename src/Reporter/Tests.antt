-- ===== src/Reporter/Tests.antt =====
-- The reporter on concrete verdicts. The world of the notifiers is the list of the deliveries so
-- far, by their keys.
mod Delivered
mod Consumed
use membrane_ai.Base.{◌≡◌, refl, List, [], ◌∷◌, ◌++◌, Str, bytes, ◌==◌, is_blank, trim_space}
use membrane_ai.Base.Int.{pos}
use membrane_ai.Base.Decimal.{decimal, digits}
use membrane_ai.Base.Maps.{lookup, insert, delete}
use membrane_ai.Base.Context.{background}
use membrane_ai.Errs.{nil, plain, kind_of, find_typed, ok}
use membrane_ai.Reporter.Report.{
  success, failure, neutral, enforce, shadow, Finding, Verdict, Report, outcome_for, title_of,
  finding_lines, trim_newlines, body_of, new_report,
}
use membrane_ai.Reporter.Dispatch.{
  Notifier, Deliveries, DispatchVerdict, key, mark_if_new, unmark, lift_notifier, in_memory,
  new_dispatch_verdict, deliver, deliver_all, conclude, dispatch, handle,
}

-- Everything that a report and its delivery compute with.
run : Unit {0}
unfolding bytes ◌==◌ is_blank trim_space decimal digits lookup insert delete kind_of find_typed
    outcome_for title_of finding_lines trim_newlines body_of new_report mark_if_new unmark
    lift_notifier in_memory new_dispatch_verdict deliver deliver_all conclude dispatch handle
run = tt

abbrev leak : Finding
leak = record {
  stage = bytes "analyzer";
  rule = bytes "github-token";
  severity = bytes "blocking";
  message = bytes "remove it";
}

abbrev verdict : Verdict
verdict = record {
  submission_id = bytes "s-1";
  organization_id = bytes "o";
  decision = bytes "rejected";
  source = bytes "pipeline";
  ruleset_version = bytes "v1";
  findings = leak ∷ [];
  repository = bytes "o/r";
  commit_sha = bytes "abc";
  pr_number = pos 7;
}

-- The report of the verdict under enforcement.
abbrev report : Report
report = record {
  submission_id = bytes "s-1";
  organization_id = bytes "o";
  outcome = failure;
  title = title_of failure verdict;
  body = body_of verdict;
  repository = bytes "o/r";
  commit_sha = bytes "abc";
  pr_number = pos 7;
}

abbrev webhook : Notifier (List Str)
webhook = record {
  name = bytes "webhook";
  notify = λ ctx r w. (nil, w ++ key r.submission_id (bytes "webhook") ∷ []);
}

abbrev broken : Notifier (List Str)
broken = record { name = bytes "siem"; notify = λ ctx r w. (plain (bytes "status 500"), w) }

abbrev start : Deliveries (List Str)
start = record { seen = []; outside = [] }

-- The wiring with a log that cannot take a mark back.
abbrev forgetful : DispatchVerdict (Deliveries (List Str))
forgetful = record {
  notifiers = lift_notifier broken ∷ [];
  deliveries = record {
    mark_if_new = mark_if_new;
    unmark = λ ctx id n l. (plain (bytes "redis is down"), l);
  };
  mode = enforce;
}

verdict_reported : new_report verdict enforce ≡ ok report
unfolding run
verdict_reported = refl

body_text :
    body_of verdict
    ≡ bytes
        "submission s-1 · source pipeline · ruleset v1\n• [analyzer] github-token (blocking): remove it"
unfolding run
body_text = refl

twelve_findings : decimal 12 ≡ bytes "12"
unfolding run
twelve_findings = refl
