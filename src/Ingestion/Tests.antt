-- ===== src/Ingestion/Tests.antt =====
-- The ingestion on concrete submissions; the world counts the ids that were given out.
mod Accepting
mod Handlers
use membrane_ai.Base.{ℕ, ◌+◌, ◌≡◌, refl, List, [], ◌∷◌, Str, bytes, is_blank, trim_space, ◌==◌}
use membrane_ai.Base.Int.{pos}
use membrane_ai.Base.Decimal.{decimal, digits}
use membrane_ai.Errs.{ok}
use membrane_ai.Ingestion.Submission.{
  unspecified, ide, Origin, Submission, new_submission, normalize_origin,
}
use membrane_ai.Ingestion.Enqueue.{IdGen, Clock, Bus, enqueue, in_memory, publish_event}

-- Everything that these inputs compute with.
run : Unit {0}
unfolding bytes ◌==◌ is_blank trim_space decimal digits new_submission normalize_origin enqueue
    in_memory publish_event
run = tt

abbrev change : Submission
change = record {
  organization_id = bytes "acme";
  repository = bytes "acme/app";
  file_path = bytes "main.go";
  language = bytes "go";
  diff = bytes "+x";
  origin = unspecified;
  commit_sha = [];
  pr_number = pos 0;
}

abbrev ids : IdGen ℕ
ids = record { new_id = λ n. (decimal n, n + 1) }

abbrev clock : Clock ℕ
clock = record { now = λ n. (pos n, n) }

abbrev start : Bus ℕ
start = record { events = []; outside = 41 }

change_accepted :
    new_submission
      (bytes " acme ")
      (bytes "acme/app")
      (bytes "main.go\n")
      (bytes "go")
      (bytes "+x")
      (Origin.other (bytes "IDE"))
    ≡ ok change
unfolding run
change_accepted = refl
