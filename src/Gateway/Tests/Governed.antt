-- ===== src/Gateway/Tests/Governed.antt =====
-- The theorems on the gateway at concrete requests.
use membrane_ai.Base.{◌≡◌, ◌≢◌, ◌↔◌, ◌⊎◌, true, List, [], ◌∷◌, ◌++◌, bytes, arith, All}
use membrane_ai.Base.Context.{background}
use membrane_ai.Errs.{ok, err, plain}
use membrane_ai.Gateway.Typosquat.{near_miss}
use membrane_ai.Gateway.Typosquat.Distance.{OneEdit, IsAscii, near_miss_iff}
use membrane_ai.Gateway.Policy.{deny, review, names_of, default_policy, evaluate_tool_call}
use membrane_ai.Gateway.Policy.Rules.{IsListed, IsDangerous, IsUnlisted, evaluate_tool_call_iff}
use membrane_ai.Gateway.Audit.Trail.{
  Request, tool_call, install, shadow, entries, serve_all, serve_all-trail,
}
use membrane_ai.Gateway.Routes.{Decoders, tool_call, serve}
use membrane_ai.Gateway.Routes.Audited.{Outcome, serve-Outcome}
use membrane_ai.Gateway.Tests.{run, ascii, wipe, install_of, gateway, gateway-IsTrail}

lodash-IsAscii : IsAscii (bytes "loddash")
unfolding run
lodash-IsAscii = omega arith

near_miss_iff_example :
    (near_miss (bytes "loddash") (bytes "lodash") ≡ true)
    ↔ OneEdit (bytes "loddash") (bytes "lodash")
unfolding run
near_miss_iff_example =
    near_miss_iff (bytes "loddash") (bytes "lodash") lodash-IsAscii (omega arith)

evaluate_tool_call_iff_example :
    (((evaluate_tool_call ascii default_policy wipe).decision ≡ deny) ↔ (
      IsListed ascii wipe.tool default_policy.denied_tools
      ⊎ (IsDangerous ascii default_policy.dangerous_arg_patterns wipe.args
          ⊎ IsUnlisted ascii wipe.tool default_policy.allowed_tools)))
    × ((evaluate_tool_call ascii default_policy wipe).decision ≢ review)
evaluate_tool_call_iff_example = evaluate_tool_call_iff ascii default_policy wipe

popular-IsAscii : All IsAscii (names_of (bytes "npm") default_policy.popular_packages)
unfolding run
popular-IsAscii = omega arith

abbrev requests : List Request
requests =
    tool_call wipe
    ∷ shadow (record { agent = bytes "reject"; source = []; user = [] })
    ∷ install (install_of (bytes "react"))
    ∷ []

serve_all-trail_example :
    (serve_all ascii gateway background requests []).1
    ≡ [] ++ entries (serve_all ascii gateway background requests []).0
serve_all-trail_example = serve_all-trail ascii gateway background gateway-IsTrail requests []

abbrev decoders : Decoders
decoders = record {
  tool_call_of = λ limit body. ok wipe;
  package_of = λ limit body. err (plain (bytes "EOF"));
  shadow_of = λ limit body. err (plain (bytes "EOF"));
}

serve-Outcome_example :
    Outcome ascii gateway background []
      (serve decoders ascii gateway background tool_call (bytes "{}") [])
serve-Outcome_example = serve-Outcome ascii gateway background decoders tool_call (bytes "{}") []
