-- ===== src/Assurance/Gate/Precedence.antt =====
-- The combined gate against an order of the decisions, and the rules that it cites.
use membrane_ai.Base.{ℕ, ◌≡◌, ◌≢◌, ◌↔◌, ◌⊎◌, [], leb, if◌then◌else◌, arith}
use membrane_ai.Assurance.Status.{
  IntegrationStatus, completed, GateDecision, pass, warn, block, Policy, decide,
}
use membrane_ai.Assurance.Gate.{combined_gate}

-- How grave a decision is: PASS, WARN, INCOMPLETE, ERROR, BLOCK.
abbrev pub rank : GateDecision → ℕ
rank pass = 0
rank warn = 1
rank GateDecision.incomplete = 2
rank GateDecision.error = 3
rank block = 4
rank (GateDecision.other s) = 0

abbrev pub graver : GateDecision → GateDecision → GateDecision
graver a b = if leb (rank b) (rank a) then a else b

-- What the gate reads of the code verdict: only BLOCK and WARN count.
abbrev pub code_part : GateDecision → GateDecision
code_part block = block
code_part warn = warn
code_part _ = pass

-- The combined decision is the graver one of the agent's decision and of what counts of the code
-- verdict, in the order PASS, WARN, INCOMPLETE, ERROR, BLOCK.
pub combined_gate-graver :
    (status : IntegrationStatus) (code : GateDecision) (p : Policy)
    → (combined_gate status code p).decision ≡ graver (decide status p) (code_part code)
unfolding combined_gate decide
combined_gate-graver status code p = ground arith

-- A decision to block or to warn cites a rule.
pub combined_gate_cites :
    (status : IntegrationStatus) (code : GateDecision) (p : Policy)
    → ((combined_gate status code p).decision ≡ block)
      ⊎ ((combined_gate status code p).decision ≡ warn)
    → (combined_gate status code p).rules ≢ []
unfolding combined_gate decide
combined_gate_cites status code p h = ground arith

-- The gate passes exactly for a completed evaluation and a code verdict other than BLOCK and WARN.
-- So a code verdict of ERROR or INCOMPLETE passes.
pub combined_gate-pass :
    (status : IntegrationStatus) (code : GateDecision) (p : Policy)
    → ((combined_gate status code p).decision ≡ pass)
      ↔ ((status ≡ completed) × (code ≢ block) × (code ≢ warn))
unfolding combined_gate decide
combined_gate-pass status code p = ground arith
