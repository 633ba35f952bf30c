-- ===== src/Orchestrator/Tests.antt =====
-- The orchestrator on concrete submissions, and its theorems at these inputs. The digest of the tests
-- is the message itself, the clock counts its readings, and the world of the stages is that counter.
mod Verdicts
mod Runs
mod Caching
mod Relaying
mod Leaking
use membrane_ai.Base.{
  ℕ, ◌+◌, ◌<◌, ◌≡◌, ◌≢◌, refl, List, [], ◌∷◌, ◌++◌, Str, bytes, ◌==◌, is_blank, trim_space, arith,
  All, some, none,
}
use membrane_ai.Base.Int.{pos}
use membrane_ai.Base.Maps.{lookup, insert}
use membrane_ai.Errs.{
  GoError, nil, plain, ok, is_err, error_string, kind_of, unavailable, find_typed,
}
use membrane_ai.Orchestrator.Verdict.{
  Submission, Finding, info, warning, blocking, approved, needs_review, rejected, Source, pipeline,
  Verdict, new_submission, with_source, consolidate, hex_encode, cache_key, stamp_source,
  strip_source,
}
use membrane_ai.Orchestrator.Saga.{
  Context, background, with_timeout, AnalysisStage, StageResult, Clock, Options, ProcessSubmission,
  optional, with_defaults, new_process_submission, redact, run_stages, verdict_of, run_fallback,
  conclude, analyze, publish_or_fail, remember, handle_miss, handle_hit, handle,
}
use membrane_ai.Orchestrator.Memory.{
  Memory, cache_get, cache_set, publish, lift_stage, lift_clock, in_memory,
}
use membrane_ai.Orchestrator.Memory.Stored.{in_memory-Journal}
use membrane_ai.Orchestrator.Saga.Publishing.{IsStamped, handle-publishes}

-- Everything that a run of the saga computes with.
run : Unit {0}
unfolding consolidate cache_key stamp_source strip_source optional with_defaults
    new_process_submission redact run_stages verdict_of run_fallback conclude analyze
    publish_or_fail remember handle_miss handle_hit handle cache_get cache_set publish lift_stage
    lift_clock in_memory lookup insert bytes ◌==◌
run = tt

abbrev leak : Finding
leak = record {
  stage = bytes "analyzer";
  rule = bytes "github-token";
  severity = blocking;
  message = bytes "potential credential";
}

-- The analyzer finds a secret in every diff and masks it.
abbrev pub analyzer : AnalysisStage ℕ
analyzer = record {
  name = bytes "analyzer";
  analyze =
      λ ctx sub w. (record { findings = leak ∷ []; masked_diff = bytes "+[MASKED]" }, nil, w + 1);
}

abbrev down : AnalysisStage ℕ
down = record {
  name = bytes "semantic";
  analyze =
      λ ctx sub w. (record { findings = []; masked_diff = [] }, plain (bytes "timeout"), w + 1);
}

-- The semantic stage repeats the diff that it is given.
abbrev semantic : AnalysisStage ℕ
semantic = record {
  name = bytes "semantic";
  analyze = λ ctx sub w. (
    record {
      findings =
          record {
            stage = bytes "semantic";
            rule = bytes "seen";
            severity = info;
            message = sub.diff;
          }
          ∷ [];
      masked_diff = [];
    },
    nil,
    w + 1,
  );
}

abbrev pub counter : Clock ℕ
counter = record { now = λ w. (pos w, w + 1) }

abbrev pub digest : Str → Str
digest s = s

abbrev pub opts : Options
opts = record { stage_deadline = pos 0; fallback_deadline = pos 0; ruleset_version = [] }

abbrev submitted : Str → Str → Submission
submitted id diff = record {
  submission_id = id;
  organization_id = bytes "org";
  repository = bytes "acme/app";
  file_path = bytes "main.go";
  language = bytes "go";
  diff = diff;
  origin = bytes "ide";
  occurred_at = pos 7;
  commit_sha = bytes "abc1234";
  pr_number = pos 3;
}

abbrev pub first : Submission
first = submitted (bytes "s1") (bytes "+token")

abbrev second : Submission
second = submitted (bytes "s2") (bytes "+token")

abbrev pub empty_memory : Memory ℕ
empty_memory = record { store = []; verdicts = []; outside = 0 }

abbrev chain : List (AnalysisStage ℕ)
chain = analyzer ∷ optional semantic ∷ []

abbrev pub saga : ProcessSubmission (Memory ℕ)
saga = in_memory chain analyzer counter opts

abbrev pub first_verdict : Verdict
first_verdict = record {
  submission_id = bytes "s1";
  organization_id = bytes "org";
  decision = rejected;
  source = pipeline;
  ruleset_version = bytes "v1";
  findings =
      leak
      ∷ record {
        stage = bytes "semantic";
        rule = bytes "seen";
        severity = info;
        message = bytes "+[MASKED]";
      }
      ∷ [];
  evaluated_at = pos 2;
  repository = bytes "acme/app";
  commit_sha = bytes "abc1234";
  pr_number = pos 3;
}

pub first_run : (handle saga background first digest empty_memory).0 ≡ ok first_verdict
unfolding run
first_run = refl
