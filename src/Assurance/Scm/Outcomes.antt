-- ===== src/Assurance/Scm/Outcomes.antt =====
-- Which releases are shown as a success, and which block a merge.
use membrane_ai.Base.{◌≡◌, ◌≢◌, ◌↔◌, arith, bytes, Str}
use membrane_ai.Assurance.Status.{GateDecision, pass, warn, block}
use membrane_ai.Assurance.Contract.{ReleaseEvidence}
use membrane_ai.Assurance.Scm.Render.{join_or}
use membrane_ai.Assurance.Scm.{
  ScmMode, shadow, ScmOutcome, success, failure, neutral, outcome_of, observed, map_scm_status,
  state_for,
}

shown-success :
    (d : GateDecision) (mode : ScmMode) (rules : Str)
    → ((observed mode rules (outcome_of d rules)).0 ≡ success) ↔ (d ≡ pass)
unfolding observed outcome_of
shown-success pass mode rules = ground arith
shown-success warn mode rules = ground arith
shown-success block mode rules = ground arith
shown-success GateDecision.incomplete mode rules = ground arith
shown-success GateDecision.error mode rules = ground arith
shown-success (GateDecision.other s) mode rules = ground arith

shown-failure :
    (d : GateDecision) (mode : ScmMode) (rules : Str)
    → ((observed mode rules (outcome_of d rules)).0 ≡ failure) ↔ ((d ≡ block) × (mode ≢ shadow))
unfolding observed outcome_of
shown-failure pass mode rules = ground arith
shown-failure warn mode rules = ground arith
shown-failure block mode rules = ground arith
shown-failure GateDecision.incomplete mode rules = ground arith
shown-failure GateDecision.error mode rules = ground arith
shown-failure (GateDecision.other s) mode rules = ground arith

state_for-success : (o : ScmOutcome) → (state_for o ≡ bytes "success") ↔ (o ≡ success)
unfolding state_for bytes
state_for-success success = ground arith
state_for-success failure = ground arith
state_for-success neutral = ground arith

-- The commit status of a release is the state "success" exactly for a PASS gate, whatever the mode,
-- and a failure exactly for a BLOCK gate outside the shadow mode.
pub map_scm_status_outcomes :
    (ev : ReleaseEvidence) (mode : ScmMode)
    → (((map_scm_status ev mode).state ≡ bytes "success") ↔ (ev.gate_decision ≡ pass))
      × (((map_scm_status ev mode).outcome ≡ failure)
          ↔ ((ev.gate_decision ≡ block) × (mode ≢ shadow)))
unfolding map_scm_status
map_scm_status_outcomes ev mode =
    let rules = join_or ev.triggered_rules (bytes "no rules") in
    let (to, from) = shown-success ev.gate_decision mode rules in
    let (named, unnamed) =
      state_for-success (observed mode rules (outcome_of ev.gate_decision rules)).0 in
    (((λ e. to (named e)), (λ e. unnamed (from e))), shown-failure ev.gate_decision mode rules)
