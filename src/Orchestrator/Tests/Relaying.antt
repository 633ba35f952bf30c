-- ===== src/Orchestrator/Tests/Relaying.antt =====
-- The outbox on a verdict that is stored and relayed; the world of the bus is its log.
use mathlib.Core.List.{append-nil}
use membrane_ai.Base.{
  refl, sym, both_branches, List, [], ◌∷◌, ◌++◌, bytes, ◌==◌, arith, if◌then◌else◌,
}
use membrane_ai.Base.Int.{pos}
use membrane_ai.Base.Context.{background}
use membrane_ai.Errs.{GoError, nil, plain, ok}
use membrane_ai.Orchestrator.Verdict.{approved, pipeline, Verdict}
use membrane_ai.Orchestrator.Outbox.{
  Db, Commit, Encoders, PublishFaults, RecordPublisher, store_verdict, publish_pending, insert_rows,
  commit_rows, with_rows, pending,
}
use membrane_ai.Orchestrator.Outbox.Delivery.{Sent, Continues, IsBus}
use membrane_ai.Orchestrator.Outbox.Safety.{stored, relayed, Steps, IsSafe}
use membrane_ai.Orchestrator.Outbox.AtLeastOnce.{Steps-IsSafe}
use membrane_ai.Orchestrator.Outbox.Progress.{IsDrained, no_fault, publish_pending-IsDrained}

abbrev verdict : Verdict
verdict = record {
  submission_id = bytes "s-1";
  organization_id = bytes "acme";
  decision = approved;
  source = pipeline;
  ruleset_version = bytes "v1";
  findings = [];
  evaluated_at = pos 1;
  repository = bytes "acme/app";
  commit_sha = bytes "abc";
  pr_number = pos 7;
}

abbrev encoders : Encoders
encoders = record {
  encode_verdict = λ v. ok v.submission_id;
  detail = λ version findings. ok version;
  headers = λ ctx. ok [];
}

-- The bus refuses the value "bad".
abbrev send : RecordPublisher (List Sent)
send = λ ctx topic key value headers log.
    if value == bytes "bad"
    then (plain (bytes "no leader"), log)
    else (nil, log ++ record { topic = topic; key = key; value = value } ∷ [])

send-IsBus : IsBus send (λ log. log)
send-IsBus = record {
  accepts = λ ctx topic key value headers log h. ground (arith, h);
  continues = λ ctx topic key value headers log.
      both_branches (λ (r : GoError × List Sent). Continues log r.1) (value == bytes "bad")
        ([], sym (append-nil log)) (record { topic = topic; key = key; value = value } ∷ [], refl);
}

abbrev empty : Db
empty = record { audit = []; outbox = []; next_id = 1 }

abbrev answer_lost : PublishFaults
answer_lost = record {
  begin_tx = nil;
  insert_audit = nil;
  insert_outbox = nil;
  commit = Commit.lost (plain (bytes "connection reset"));
}

abbrev with_verdict : Db
with_verdict =
    (store_verdict (bytes "code.verdict.v1") encoders answer_lost background verdict empty).1

abbrev after_tick : Db × List Sent
after_tick =
    let r = publish_pending send (λ h. []) background 100 no_fault with_verdict [] in (r.2, r.3)

Steps-IsSafe_example : IsSafe (λ log. log) after_tick
Steps-IsSafe_example =
    Steps-IsSafe send-IsBus (λ h. [])
      (Steps.more
        (stored (bytes "code.verdict.v1") encoders answer_lost background verdict empty [])
        (Steps.more (relayed background 100 no_fault with_verdict []) (Steps.none after_tick)))
      (record { paired = tt; below = tt; distinct = tt; delivered = tt })

abbrev accept_all : RecordPublisher (List Sent)
accept_all = λ ctx topic key value headers log.
    (nil, log ++ record { topic = topic; key = key; value = value } ∷ [])

accept_all-IsBus : IsBus accept_all (λ log. log)
accept_all-IsBus = record {
  accepts = λ ctx topic key value headers log h. refl;
  continues = λ ctx topic key value headers log.
      (record { topic = topic; key = key; value = value } ∷ [], refl);
}

publish_pending-IsDrained_example :
    IsDrained accept_all-IsBus
      (λ h. [])
      background
      with_verdict
      []
      (publish_pending accept_all (λ h. []) background 100 no_fault with_verdict [])
unfolding store_verdict insert_rows commit_rows with_rows pending
publish_pending-IsDrained_example =
    publish_pending-IsDrained accept_all-IsBus (λ h. []) background 100 with_verdict []
      (λ topic key value headers w. refl) (omega arith)
