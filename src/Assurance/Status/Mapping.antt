-- ===== src/Assurance/Status/Mapping.antt =====
-- When an evaluation counts as completed, and when its status alone can pass the gate.
use membrane_ai.Base.{◌≡◌, ◌↔◌, false, bytes, ==_iff, arith}
use membrane_ai.Base.Int.{is_pos}
use membrane_ai.Assurance.Status.{
  IntegrationStatus, completed, EvalResult, Policy, pass, normalize_status, map_eval_status, decide,
}

-- The evaluation ran to its end and no scenario of it errored, is incomplete, fails critically or
-- regressed.
pub record IsCleanRun (r : EvalResult) : Type 0 where
  pub finished : normalize_status r.raw_status ≡ bytes "COMPLETED"
  pub none_errored : is_pos r.errored ≡ false
  pub none_incomplete : is_pos r.incomplete ≡ false
  pub none_critical : is_pos r.new_critical_failures ≡ false
  pub none_regressed : is_pos r.regressed ≡ false

pub map_eval_status-completed : (r : EvalResult) → (map_eval_status r ≡ completed) ↔ IsCleanRun r
unfolding map_eval_status
map_eval_status-completed r =
    ground (arith, ==_iff (normalize_status r.raw_status) (bytes "COMPLETED"))

decide-pass : (s : IntegrationStatus) (p : Policy) → (decide s p ≡ pass) ↔ (s ≡ completed)
unfolding decide
decide-pass s p = ground arith

-- The agent half of the gate passes exactly for a clean run, whatever the policy.
pub decide-map_eval_status :
    (r : EvalResult) (p : Policy) → (decide (map_eval_status r) p ≡ pass) ↔ IsCleanRun r
decide-map_eval_status r p =
    let (to_completed, to_pass) = decide-pass (map_eval_status r) p in
    let (to_clean, from_clean) = map_eval_status-completed r in
    (λ e. to_clean (to_completed e), λ c. to_pass (from_clean c))
