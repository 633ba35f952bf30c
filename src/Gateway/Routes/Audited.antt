-- ===== src/Gateway/Routes/Audited.antt =====
-- What a verdict that leaves the gateway over HTTP rests on.
use membrane_ai.Base.{
  ℕ, ◌≡◌, ◌⊎◌, inl, inr, refl, ap, false, ◌||◌, [], Str, bytes, ◌==◌, ◌++◌, arith, Bool-cases,
}
use membrane_ai.Base.Context.{Context}
use membrane_ai.Errs.{GoError, nil, is_err, Result, ok, err}
use membrane_ai.Gateway.Policy.{
  Verdict, ToolCall, Package, ShadowSignal, Casing, evaluate_tool_call, screen_package,
  classify_shadow,
}
use membrane_ai.Gateway.Audit.{Gateway, audited, govern_tool_call, govern_package, record_shadow}
use membrane_ai.Gateway.Routes.{
  Answer, failure, to_response, Decoders, max_body, respond, tool_call_route, package_route,
  shadow_route, Route, tool_call, install, shadow_ai, serve,
}

module _ {E : Type 0} (casing : Casing) (g : Gateway E) (ctx : Context) where
  -- The verdict is what the policy decides on a tool call, a package or a use of an agent.
  abbrev pub IsDecided : (kind subject : Str) → Verdict → Type 0
  IsDecided kind subject v =
      ((c : ToolCall) × (kind ≡ bytes "tool-call")
        × (subject ≡ c.tool)
        × (v ≡ evaluate_tool_call casing g.policy c))
      ⊎ ((p : Package) × (kind ≡ bytes "package")
          × (subject ≡ p.ecosystem ++ bytes ":" ++ p.name)
          × (v ≡ screen_package casing g.policy p))
      ⊎ ((s : ShadowSignal) × (kind ≡ bytes "shadow-ai")
          × (subject ≡ s.agent)
          × (v ≡ classify_shadow casing g.policy s))

  -- The sink has recorded the verdict, without an error, as the first and only effect.
  pub record IsAudited (e after : E) (answer : Answer) : Type 0 where
    pub kind : Str
    pub subject : Str
    pub verdict : Verdict
    pub decided : IsDecided kind subject verdict
    pub recorded : g.audit.record_verdict ctx kind subject verdict e ≡ (nil, after)
    pub shown : answer ≡ to_response verdict

  -- An error was shown, and no decision.
  abbrev pub IsFailure : Answer → Type 0
  IsFailure answer = (status : ℕ) × (message : Str) × (answer ≡ failure status message)

  abbrev pub Outcome : E → Answer × E → Type 0
  Outcome e result = IsFailure result.0 ⊎ IsAudited e result.1 result.0

  no_error : (er : GoError) → is_err er ≡ false → er ≡ nil
  no_error er h = ground (arith, h)

  respond-Outcome :
      (kind subject : Str) (v : Verdict) (e : E)
      → IsDecided kind subject v
      → Outcome e (respond (audited casing g ctx kind subject v e))
  unfolding audited respond
  respond-Outcome kind subject v e decided =
      let (er, e') = g.audit.record_verdict ctx kind subject v e in
      elim (Bool-cases (is_err er)) [
        | inl failed ↦ rw failed (inl (503, bytes "audit failed", refl))
        | inr fine ↦ rw fine (
            inr (record {
              kind = kind;
              subject = subject;
              verdict = v;
              decided = decided;
              recorded = ap (λ x. (x, e')) (no_error er fine);
              shown = refl;
            }))
      ]

  tool_call-Outcome :
      (req : Result ToolCall) (e : E) → Outcome e (tool_call_route casing g ctx req e)
  unfolding tool_call_route govern_tool_call
  tool_call-Outcome (err er) e = inl (400, bytes "invalid JSON body", refl)
  tool_call-Outcome (ok req) e = elim (Bool-cases (req.tool == [])) [
    | inl missing ↦ rw missing (inl (400, bytes "tool is required", refl))
    | inr named ↦ rw named (
        respond-Outcome (bytes "tool-call") req.tool (evaluate_tool_call casing g.policy req) e
          (inl (req, refl, refl, refl)))
  ]

  package-Outcome : (req : Result Package) (e : E) → Outcome e (package_route casing g ctx req e)
  unfolding package_route govern_package
  package-Outcome (err er) e = inl (400, bytes "invalid JSON body", refl)
  package-Outcome (ok req) e = elim (Bool-cases (req.ecosystem == [] || req.name == [])) [
    | inl missing ↦ rw missing (inl (400, bytes "ecosystem and name are required", refl))
    | inr named ↦ rw named (
        respond-Outcome (bytes "package") (req.ecosystem ++ bytes ":" ++ req.name)
          (screen_package casing g.policy req) e (inr (inl (req, refl, refl, refl))))
  ]

  shadow-Outcome : (req : Result ShadowSignal) (e : E) → Outcome e (shadow_route casing g ctx req e)
  unfolding shadow_route record_shadow
  shadow-Outcome (err er) e = inl (400, bytes "invalid JSON body", refl)
  shadow-Outcome (ok req) e = elim (Bool-cases (req.agent == [])) [
    | inl missing ↦ rw missing (inl (400, bytes "agent is required", refl))
    | inr named ↦ rw named (
        respond-Outcome (bytes "shadow-ai") req.agent (classify_shadow casing g.policy req) e
          (inr (inr (req, refl, refl, refl))))
  ]

  -- No decision leaves the gateway unaudited: every request, to every route and with any body, is
  -- answered with an error, or else with a verdict that the policy decides on a tool call, a package
  -- or a use of an agent, and that the audit sink has recorded before without an error.
  pub serve-Outcome :
      (d : Decoders) (route : Route) (body : Str) (e : E)
      → Outcome e (serve d casing g ctx route body e)
  unfolding serve
  serve-Outcome d tool_call body e = tool_call-Outcome (d.tool_call_of max_body body) e
  serve-Outcome d install body e = package-Outcome (d.package_of max_body body) e
  serve-Outcome d shadow_ai body e = shadow-Outcome (d.shadow_of max_body body) e
