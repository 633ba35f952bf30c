-- ===== src/Assurance/Gate.antt =====
-- pkg/assurance/builder.go: the combined gate.
pub mod Precedence
use membrane_ai.Base.{Bool, true, false, ◌||◌, List, [], ◌∷◌, ◌++◌, Str, bytes, if◌then◌else◌}
use membrane_ai.Assurance.Status.{
  IntegrationStatus, completed, completed_with_critical_failure, completed_with_regression, pending,
  not_configured, blocked, GateDecision, pass, warn, block, Policy, decide,
}

pub record GateResult : Type 0 where
  pub decision : GateDecision
  pub rules : List Str

abbrev pub is_block : GateDecision → Bool
is_block block = true
is_block _ = false

abbrev pub is_warn : GateDecision → Bool
is_warn warn = true
is_warn _ = false

abbrev pub is_error : GateDecision → Bool
is_error GateDecision.error = true
is_error _ = false

abbrev pub is_incomplete : GateDecision → Bool
is_incomplete GateDecision.incomplete = true
is_incomplete _ = false

-- The rule that the agent's status cites.
unfoldable pub status_rules : IntegrationStatus → List Str
status_rules completed_with_critical_failure = bytes "AGENT_CRITICAL_SCENARIO" ∷ []
status_rules completed_with_regression = bytes "NONCRITICAL_REGRESSION" ∷ []
status_rules IntegrationStatus.error = bytes "AGENT_EVAL_INCOMPLETE" ∷ []
status_rules IntegrationStatus.incomplete = bytes "AGENT_EVAL_INCOMPLETE" ∷ []
status_rules pending = bytes "AGENT_EVAL_INCOMPLETE" ∷ []
status_rules blocked = bytes "AGENT_EVAL_INCOMPLETE" ∷ []
status_rules not_configured = bytes "OPTIONAL_ASSURANCE_UNAVAILABLE" ∷ []
status_rules completed = []
status_rules (IntegrationStatus.other s) = []

-- The precedence of the decisions, on the rules so far.
unfoldable pub layer : GateDecision → GateDecision → List Str → GateResult
layer agent code rules =
    if is_block code || is_block agent
    then record { decision = block; rules = rules }
    else if is_error agent
    then record { decision = GateDecision.error; rules = rules }
    else if is_incomplete agent
    then record { decision = GateDecision.incomplete; rules = rules }
    else if is_warn agent || is_warn code
    then record {
      decision = warn;
      rules = if is_warn code then rules ++ bytes "COVERAGE_GAP" ∷ [] else rules;
    }
    else record { decision = pass; rules = rules }

unfoldable pub combined_gate : IntegrationStatus → GateDecision → Policy → GateResult
unfolding status_rules layer
combined_gate status code p =
    layer (decide status p) code
      ((if is_block code then bytes "CODE_CRITICAL" ∷ [] else []) ++ status_rules status)
