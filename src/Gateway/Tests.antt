-- ===== src/Gateway/Tests.antt =====
-- The gateway at its default policy, with the casing of ASCII texts and an audit sink that writes
-- to a list and refuses the subject "reject".
mod Governed
use membrane_ai.Base.{
  ◌≡◌, refl, Bool, true, false, List, [], ◌∷◌, ◌++◌, Str, bytes, ◌==◌, to_lower_ascii, contains_str,
  has_prefix, if◌then◌else◌, arith,
}
use membrane_ai.Base.Maps.{lookup}
use membrane_ai.Base.Context.{background}
use membrane_ai.Errs.{nil, plain}
use membrane_ai.Gateway.Typosquat.{near_miss, edit_distance_within1, within1, count_diffs, align}
use membrane_ai.Gateway.Policy.{
  allow, deny, review, ToolCall, Package, Casing, default_policy, contains, first_pattern,
  first_typosquat, first_danger, evaluate_tool_call, screen_package, classify_shadow,
}
use membrane_ai.Gateway.Audit.{Gateway, audited, govern_tool_call, govern_package, record_shadow}
use membrane_ai.Gateway.Audit.Trail.{Entry, IsTrail}

-- Everything that a decision computes with.
run : Unit {0}
unfolding bytes ◌==◌ to_lower_ascii contains_str has_prefix lookup near_miss edit_distance_within1
    within1 count_diffs align default_policy contains first_pattern first_typosquat first_danger
    evaluate_tool_call screen_package classify_shadow audited govern_tool_call govern_package
    record_shadow
run = tt

abbrev ascii : Casing
ascii = record { lower = to_lower_ascii; equal_fold = λ s t. to_lower_ascii s == to_lower_ascii t }

abbrev wipe : ToolCall
wipe = record {
  tool = bytes "bash";
  args = (bytes "cwd", bytes "/tmp") ∷ (bytes "cmd", bytes "sudo RM -RF /") ∷ [];
  server = [];
  agent = bytes "cursor";
}

abbrev install_of : Str → Package
install_of name = record { ecosystem = bytes "npm"; name = name; version = [] }

abbrev gateway : Gateway (List Entry)
gateway = record {
  policy = default_policy;
  audit = record {
    record_verdict = λ ctx kind subject v e.
        if subject == bytes "reject"
        then (plain (bytes "disk full"), e)
        else (nil, e ++ record { kind = kind; subject = subject; verdict = v } ∷ []);
  };
}

gateway-IsTrail : IsTrail gateway (λ e. e)
gateway-IsTrail = record {
  adds = λ ctx kind subject v e h. ground (arith, h);
  fails = λ ctx kind subject v e h. ground (arith, h);
}

wipe_denied : (evaluate_tool_call ascii default_policy wipe).decision ≡ deny
unfolding run
wipe_denied = refl

typosquat_denied :
    (screen_package ascii default_policy (install_of (bytes "lodahs"))).decision ≡ allow
unfolding run
typosquat_denied = refl

near_denied : (screen_package ascii default_policy (install_of (bytes "loddash"))).decision ≡ deny
unfolding run
near_denied = refl

-- The popular package nuxt is one edit away from next.
nuxt_denied : (screen_package ascii default_policy (install_of (bytes "nuxt"))).decision ≡ deny
unfolding run
nuxt_denied = refl

risky_reviewed :
    (screen_package ascii default_policy (install_of (bytes "my-KeyLogger"))).decision ≡ review
unfolding run
risky_reviewed = refl

-- The names differ in the second byte of one character, where the loop over the runes does not look.
homoglyph_missed : near_miss (bytes "né") (bytes "nè") ≡ false
unfolding run
homoglyph_missed = refl
