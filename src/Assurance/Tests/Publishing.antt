-- ===== src/Assurance/Tests/Publishing.antt =====
-- The theorems on the commit status at concrete releases.
use membrane_ai.Base.{◌≡◌, ◌≢◌, ◌↔◌, refl, List, [], ◌∷◌, Str, bytes}
use membrane_ai.Base.Int.{pos}
use membrane_ai.Base.Maps.{lookup}
use membrane_ai.Errs.{ok}
use membrane_ai.Assurance.Status.{pass, warn, block}
use membrane_ai.Assurance.Build.{BuildInput, assemble, build_release_evidence}
use membrane_ai.Assurance.Client.Wire.{map_eval_detail, itoa}
use membrane_ai.Assurance.Scm.{
  ScmStatus, success, enforce, map_scm_status, fake_publish, new_idempotent_publisher,
}
use membrane_ai.Assurance.Scm.Once.{publish_all, IsFresh, last_state, publish_all-IsFresh}
use membrane_ai.Assurance.Scm.Released.{IsCleanDetail, released_iff}
use membrane_ai.Assurance.Tests.{run, input}
use membrane_ai.Assurance.Tests.Clients.{detail}

-- The release, evaluated by AgentTwin.
abbrev fetched : BuildInput
fetched = record (input (bytes "rel-1") pass (pos 0)) { agent = map_eval_detail detail }

fetched_built : build_release_evidence (pos 1) fetched ≡ ok (assemble (pos 1) fetched)
unfolding run map_eval_detail itoa
fetched_built = refl

released_iff_example :
    ((map_scm_status (assemble (pos 1) fetched) enforce).state ≡ bytes "success")
    ↔ (IsCleanDetail detail × (pass ≢ block) × (pass ≢ warn))
released_iff_example =
    released_iff (pos 1) fetched detail (assemble (pos 1) fetched) enforce refl fetched_built

abbrev status : Str → ScmStatus
status state = record {
  repository = bytes "acme/app";
  commit_sha = bytes "abc";
  context = bytes "c";
  outcome = success;
  state = state;
  title = [];
  body = [];
}

abbrev statuses : List ScmStatus
statuses = status (bytes "pending") ∷ status (bytes "pending") ∷ status (bytes "success") ∷ []

publish_all-IsFresh_example :
    IsFresh (publish_all fake_publish statuses (new_idempotent_publisher []) []).1
    × ((key : Str)
        → lookup key (publish_all fake_publish statuses (new_idempotent_publisher []) []).0.seen
          ≡ last_state key (publish_all fake_publish statuses (new_idempotent_publisher []) []).1)
publish_all-IsFresh_example = publish_all-IsFresh fake_publish statuses []
