-- ===== src/Gateway/Routes.antt =====
-- services/gateway/internal/adapters/httpapi/httpapi.go: the three routes. Package json is a
-- parameter, which is given what `http.MaxBytesReader` lets through.
pub mod Audited
use membrane_ai.Base.{ℕ, Bool, ◌||◌, List, [], Str, bytes, ◌==◌, length, leb, if◌then◌else◌}
use membrane_ai.Base.Context.{Context}
use membrane_ai.Errs.{GoError, Result, ok, err}
use membrane_ai.Gateway.Policy.{Decision, Verdict, ToolCall, Package, ShadowSignal, Casing}
use membrane_ai.Gateway.Audit.{Gateway, govern_tool_call, govern_package, record_shadow}

abbrev pub max_body : ℕ
max_body = 1048576

-- What a handler writes: an error with its status, or a verdict with the status 200.
pub data Answer : Type 0 where
  failure : (status : ℕ) → (message : Str) → Answer
  verdict_response : (decision : Decision) → (reasons : List Str) → Answer

-- `json.NewDecoder(http.MaxBytesReader(w, r.Body, limit)).Decode` into each request, on a limit and a
-- body. The fields of the requests are those of the domain.
pub record Decoders : Type 0 where
  pub tool_call_of : ℕ → Str → Result ToolCall
  pub package_of : ℕ → Str → Result Package
  pub shadow_of : ℕ → Str → Result ShadowSignal

-- `toResponse`
abbrev pub to_response : Verdict → Answer
to_response v = verdict_response v.decision v.reasons

-- `respond`
unfoldable pub respond : {E : Type 0} → Result Verdict × E → Answer × E
respond (err er, e) = (failure 503 (bytes "audit failed"), e)
respond (ok v, e) = (to_response v, e)

module _ {E : Type 0} (casing : Casing) (g : Gateway E) (ctx : Context) where
  abbrev bad_json : Answer
  bad_json = failure 400 (bytes "invalid JSON body")

  -- POST /v1/gateway/tool-call
  unfoldable pub tool_call_route : Result ToolCall → E → Answer × E
  unfolding respond
  tool_call_route (err er) e = (bad_json, e)
  tool_call_route (ok req) e =
      let governed = respond (govern_tool_call casing g ctx req e) in
      if req.tool == [] then (failure 400 (bytes "tool is required"), e) else governed

  -- POST /v1/gateway/package
  unfoldable pub package_route : Result Package → E → Answer × E
  unfolding respond
  package_route (err er) e = (bad_json, e)
  package_route (ok req) e =
      let governed = respond (govern_package casing g ctx req e) in
      if req.ecosystem == [] || req.name == []
      then (failure 400 (bytes "ecosystem and name are required"), e)
      else governed

  -- POST /v1/gateway/shadow-ai
  unfoldable pub shadow_route : Result ShadowSignal → E → Answer × E
  unfolding respond
  shadow_route (err er) e = (bad_json, e)
  shadow_route (ok req) e =
      let governed = respond (record_shadow casing g ctx req e) in
      if req.agent == [] then (failure 400 (bytes "agent is required"), e) else governed

-- The routes of the mux.
pub data Route : Type 0 where
  tool_call install shadow_ai : Route

-- `NewMux`: a request to a route.
unfoldable pub serve :
    {E : Type 0} → Decoders → Casing → Gateway E → Context → Route → Str → E → Answer × E
unfolding tool_call_route package_route shadow_route
serve d casing g ctx tool_call body e =
    tool_call_route casing g ctx (d.tool_call_of max_body body) e
serve d casing g ctx install body e = package_route casing g ctx (d.package_of max_body body) e
serve d casing g ctx shadow_ai body e = shadow_route casing g ctx (d.shadow_of max_body body) e
