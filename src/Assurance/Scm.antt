-- ===== src/Assurance/Scm.antt =====
-- pkg/assurance/scm.go, scmgithub.go and render.go: the commit status of a release, its delivery
-- once per state, and the report of the evidence.
pub mod Render
pub mod GitHub
pub mod Outcomes
pub mod Once
pub mod Released
pub mod Posted
use membrane_ai.Base.{
  Bool, true, false, ◌&&◌, ◌||◌, not, Option, none, some, List, [], ◌∷◌, ◌++◌, Str, bytes, ◌==◌,
  is_blank, eqb, if◌then◌else◌,
}
use membrane_ai.Base.Maps.{lookup, insert}
use membrane_ai.Errs.{GoError, nil, is_err, validation_err, Result, ok, err}
use membrane_ai.Assurance.Status.{GateDecision, pass, warn, block, decision_string, status_string}
use membrane_ai.Assurance.Contract.{ReleaseEvidence}
use Render.{join_or}

-- A `type SCMMode string`: `other` holds a string that is none of the constants.
pub data ScmMode : Type 0 where
  shadow enforce : ScmMode
  other : Str → ScmMode

pub data ScmOutcome : Type 0 where
  success failure neutral : ScmOutcome

pub record ScmStatus : Type 0 where
  pub repository : Str
  pub commit_sha : Str
  pub context : Str
  pub outcome : ScmOutcome
  pub state : Str
  pub title : Str
  pub body : Str

abbrev pub status_context : Str
status_context = bytes "membrane-ai/release-assurance"

-- The outcome and the title that the `switch` of `MapSCMStatus` gives to a decision.
unfoldable pub outcome_of : GateDecision → Str → ScmOutcome × Str
outcome_of pass rules = (success, bytes "MEMBRANE.AI ✓ release checks passed")
outcome_of warn rules =
    (neutral, bytes "MEMBRANE.AI ⚠ release warnings — review (" ++ rules ++ bytes ")")
outcome_of block rules = (failure, bytes "MEMBRANE.AI ✗ release blocked (" ++ rules ++ bytes ")")
outcome_of GateDecision.incomplete rules =
    (neutral, bytes "MEMBRANE.AI ⚠ release evidence incomplete — not a pass")
outcome_of GateDecision.error rules =
    (neutral, bytes "MEMBRANE.AI ⚠ release evaluation errored — not a pass")
outcome_of (GateDecision.other s) rules =
    (neutral, bytes "MEMBRANE.AI ⚠ release status unknown — not a pass")

-- The downgrade of a failure in shadow mode.
unfoldable pub observed : ScmMode → Str → ScmOutcome × Str → ScmOutcome × Str
observed shadow rules (failure, title) = (
  neutral,
  bytes "MEMBRANE.AI ⚠ shadow mode — would BLOCK in enforce mode (" ++ rules ++ bytes ")",
)
observed shadow rules (success, title) = (success, title)
observed shadow rules (neutral, title) = (neutral, title)
observed enforce rules outcome = outcome
observed (ScmMode.other s) rules outcome = outcome

-- `stateFor`
unfoldable pub state_for : ScmOutcome → Str
state_for success = bytes "success"
state_for failure = bytes "failure"
state_for neutral = bytes "pending"

-- `scmBody`
unfoldable pub scm_body : ReleaseEvidence → Str
scm_body ev =
    bytes "Combined release gate: "
    ++ decision_string ev.gate_decision
    ++ bytes "\n"
    ++ bytes "Code verdict: "
    ++ decision_string ev.code_verdict
    ++ bytes " · agent status: "
    ++ status_string ev.overall_status
    ++ bytes "\n"
    ++ bytes "Triggered rules: "
    ++ join_or ev.triggered_rules (bytes "none")
    ++ bytes "\n"
    ++ bytes "Agent "
    ++ ev.baseline_version
    ++ bytes " → "
    ++ ev.candidate_version
    ++ bytes " · eval "
    ++ ev.evaluation_run_id
    ++ bytes " · seed "
    ++ ev.run_seed
    ++ bytes "\n"

-- `MapSCMStatus`
unfoldable pub map_scm_status : ReleaseEvidence → ScmMode → ScmStatus
unfolding outcome_of observed
map_scm_status ev mode =
    let rules = join_or ev.triggered_rules (bytes "no rules") in
    let shown = observed mode rules (outcome_of ev.gate_decision rules) in
    record {
      repository = ev.repository;
      commit_sha = ev.commit_sha;
      context = status_context;
      outcome = shown.0;
      state = state_for shown.0;
      title = shown.1;
      body = scm_body ev;
    }

-- A `Publisher`, on the state of the world.
abbrev pub Publisher : Type 0 → Type 0
Publisher W = W → ScmStatus → W × GoError

-- `FakePublisher.Publish`: its state is what it has recorded.
unfoldable pub fake_publish : Publisher (List ScmStatus)
fake_publish published s = (published ++ s ∷ [], nil)

unfoldable pub key_of : ScmStatus → Str
key_of s = s.repository ++ bytes "@" ++ s.commit_sha ++ bytes "#" ++ s.context

-- `prev, ok := p.seen[key]; ok && prev == s.State`
unfoldable pub same_state : Option Str → Str → Bool
same_state none state = false
same_state (some prev) state = prev == state

unfoldable pub is_seen : List (Str × Str) → ScmStatus → Bool
unfolding same_state
is_seen seen s = same_state (lookup (key_of s) seen) s.state

-- `IdempotentPublisher`: the log of the last state of each key, and the world of its publisher.
pub record Idempotent (W : Type 0) : Type 0 where
  pub seen : List (Str × Str)
  pub world : W

abbrev pub new_idempotent_publisher : {W : Type 0} → W → Idempotent W
new_idempotent_publisher w = record { seen = []; world = w }

-- What follows the call of the inner publisher.
abbrev pub recorded :
    {W : Type 0} → Idempotent W → ScmStatus → W × GoError → Idempotent W × Bool × GoError
recorded p s (w, e) =
    if is_err e
    then (record { seen = p.seen; world = w }, false, e)
    else (record { seen = insert (key_of s) s.state p.seen; world = w }, true, nil)

-- `IdempotentPublisher.Publish`, called by one caller at a time.
unfoldable pub publish_once :
    {W : Type 0} → Publisher W → Idempotent W → ScmStatus → Idempotent W × Bool × GoError
publish_once inner p s =
    if is_seen p.seen s then (p, false, nil) else recorded p s (inner p.world s)

-- `strings.Cut(s, "/")`
unfoldable pub cut_slash : Str → Str × Str × Bool
cut_slash [] = ([], [], false)
cut_slash (c ∷ s) =
    let (before, after, found) = cut_slash s in
    if eqb c b'/' then ([], s, true) else (c ∷ before, after, found)

abbrev op_validate : Str
op_validate = bytes "assurance.SCMStatus.validate"

-- `SCMStatus.validate`
unfoldable pub validate_status_coordinates : ScmStatus → GoError
validate_status_coordinates s =
    if is_blank s.repository || is_blank s.commit_sha
    then validation_err op_validate (bytes "repository and commit SHA are required to publish") nil
    else if not (cut_slash s.repository).2
    then validation_err op_validate (bytes "repository must be owner/repo, got " ++ s.repository)
        nil
    else nil
