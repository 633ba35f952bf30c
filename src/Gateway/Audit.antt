-- ===== src/Gateway/Audit.antt =====
-- services/gateway/internal/app/gateway.go and ports/ports.go: each decision is put on the audit
-- trail. `E` is the state of the world outside, that of the audit sink included.
pub mod Trail
use membrane_ai.Base.{Str, bytes, ◌++◌, if◌then◌else◌}
use membrane_ai.Base.Context.{Context}
use membrane_ai.Errs.{GoError, is_err, Result, ok, err}
use membrane_ai.Gateway.Policy.{
  Verdict, Policy, ToolCall, Package, ShadowSignal, Casing, evaluate_tool_call, screen_package,
  classify_shadow,
}

pub record AuditSink (E : Type 0) : Type 0 where
  pub record_verdict : Context → (kind subject : Str) → Verdict → E → GoError × E

pub record Gateway (E : Type 0) : Type 0 where
  pub policy : Policy
  pub audit : AuditSink E

module _ {E : Type 0} (casing : Casing) (g : Gateway E) (ctx : Context) where
  -- The call of the sink in each operation, and the return that follows it.
  unfoldable pub audited : Str → Str → Verdict → E → Result Verdict × E
  audited kind subject v e =
      let (er, e') = g.audit.record_verdict ctx kind subject v e in
      (if is_err er then err er else ok v, e')

  unfoldable pub govern_tool_call : ToolCall → E → Result Verdict × E
  govern_tool_call c e = audited (bytes "tool-call") c.tool (evaluate_tool_call casing g.policy c) e

  unfoldable pub govern_package : Package → E → Result Verdict × E
  govern_package p e =
      audited (bytes "package") (p.ecosystem ++ bytes ":" ++ p.name)
        (screen_package casing g.policy p) e

  unfoldable pub record_shadow : ShadowSignal → E → Result Verdict × E
  record_shadow s e = audited (bytes "shadow-ai") s.agent (classify_shadow casing g.policy s) e
