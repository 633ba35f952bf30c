-- ===== src/Assurance/Status.antt =====
-- pkg/assurance/status.go
pub mod Mapping
use mathlib.Core.List.{reverse}
use Prim.Native.Nat.{◌-◌}
use membrane_ai.Base.{
  ℕ, Bool, true, false, ◌&&◌, ◌||◌, List, [], ◌∷◌, ◌++◌, map, Str, bytes, ◌==◌, eqb, leb,
  if◌then◌else◌,
}
use membrane_ai.Base.Int.{ℤ, is_pos}
use membrane_ai.Errs.{GoError, nil, validation_err}

-- A `type IntegrationStatus string`: `other` holds a string that is none of the constants.
pub data IntegrationStatus : Type 0 where
  completed completed_with_critical_failure completed_with_regression : IntegrationStatus
  error incomplete pending not_configured blocked : IntegrationStatus
  other : Str → IntegrationStatus

-- A `type GateDecision string`, likewise.
pub data GateDecision : Type 0 where
  pass warn block incomplete error : GateDecision
  other : Str → GateDecision

pub record EvalResult : Type 0 where
  pub raw_status : Str
  pub new_critical_failures : ℤ
  pub regressed : ℤ
  pub incomplete : ℤ
  pub errored : ℤ

pub record Policy : Type 0 where
  pub regression_blocks : Bool
  pub assurance_required : Bool

-- The loops of `normalizeStatus`: it trims spaces and tabs, and raises ASCII letters.
abbrev is_space_or_tab : ℕ → Bool
is_space_or_tab c = eqb c 32 || eqb c 9

trim_blanks : Str → Str
trim_blanks [] = []
trim_blanks (c ∷ s) = if is_space_or_tab c then trim_blanks s else c ∷ s

abbrev upper1 : ℕ → ℕ
upper1 c = if leb b'a' c && leb c b'z' then c - 32 else c

unfoldable pub normalize_status : Str → Str
unfolding trim_blanks
normalize_status s = map upper1 (reverse (trim_blanks (reverse (trim_blanks s))))

-- The cases of the inner `switch` of `MapEvalStatus`.
abbrev completed_status : EvalResult → IntegrationStatus
completed_status r =
    if is_pos r.errored
    then IntegrationStatus.error
    else if is_pos r.incomplete
    then IntegrationStatus.incomplete
    else if is_pos r.new_critical_failures
    then completed_with_critical_failure
    else if is_pos r.regressed
    then completed_with_regression
    else completed

-- The outer `switch`, on the normalized status; pending, queued, running, the empty status and
-- an unknown one are the last case.
status_of : Str → EvalResult → IntegrationStatus
status_of raw r =
    if raw == bytes "COMPLETED"
    then completed_status r
    else if raw == bytes "ERROR" || raw == bytes "FAILED"
    then IntegrationStatus.error
    else if raw == bytes "CANCELLED"
    then IntegrationStatus.incomplete
    else pending

unfoldable pub map_eval_status : EvalResult → IntegrationStatus
unfolding status_of
map_eval_status r = status_of (normalize_status r.raw_status) r

unfoldable pub decide : IntegrationStatus → Policy → GateDecision
decide completed p = pass
decide completed_with_critical_failure p = block
decide blocked p = block
decide completed_with_regression p = if p.regression_blocks then block else warn
decide IntegrationStatus.error p = GateDecision.error
decide IntegrationStatus.incomplete p = GateDecision.incomplete
decide pending p = GateDecision.incomplete
decide not_configured p = if p.assurance_required then block else warn
decide (IntegrationStatus.other s) p = GateDecision.incomplete

-- `string(d)` and `string(s)`
unfoldable pub decision_string : GateDecision → Str
decision_string pass = bytes "PASS"
decision_string warn = bytes "WARN"
decision_string block = bytes "BLOCK"
decision_string GateDecision.incomplete = bytes "INCOMPLETE"
decision_string GateDecision.error = bytes "ERROR"
decision_string (GateDecision.other s) = s

unfoldable pub status_string : IntegrationStatus → Str
status_string completed = bytes "COMPLETED"
status_string completed_with_critical_failure = bytes "COMPLETED_WITH_CRITICAL_FAILURE"
status_string completed_with_regression = bytes "COMPLETED_WITH_REGRESSION"
status_string IntegrationStatus.error = bytes "ERROR"
status_string IntegrationStatus.incomplete = bytes "INCOMPLETE"
status_string pending = bytes "PENDING"
status_string not_configured = bytes "NOT_CONFIGURED"
status_string blocked = bytes "BLOCKED"
status_string (IntegrationStatus.other s) = s

-- `GateDecision.Passing`
abbrev pub passing : GateDecision → Bool
passing pass = true
passing _ = false

-- `GateDecision.Validate`
unfoldable pub validate_decision : GateDecision → GoError
validate_decision (GateDecision.other s) =
    validation_err (bytes "assurance.GateDecision.Validate") (bytes "unknown gate decision: " ++ s)
      nil
validate_decision _ = nil

-- `IntegrationStatus.Validate`
unfoldable pub validate_status : IntegrationStatus → GoError
validate_status (IntegrationStatus.other s) =
    validation_err (bytes "assurance.IntegrationStatus.Validate")
      (bytes "unknown integration status: " ++ s) nil
validate_status _ = nil
