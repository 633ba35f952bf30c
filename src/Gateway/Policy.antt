-- ===== src/Gateway/Policy.antt =====
-- services/gateway/internal/domain/policy.go: the three governance decisions.
pub mod Rules
pub mod Firewall
use membrane_ai.Base.{
  Bool, true, false, ◌&&◌, not, Option, none, some, List, [], ◌∷◌, ◌++◌, Str, bytes, ◌==◌,
  contains_str, if◌then◌else◌,
}
use membrane_ai.Base.Maps.{lookup}
use membrane_ai.Gateway.Typosquat.{near_miss}

pub data Decision : Type 0 where
  allow deny review : Decision

pub record Verdict : Type 0 where
  pub decision : Decision
  pub reasons : List Str

abbrev pub because : Decision → Str → Verdict
because decision reason = record { decision = decision; reasons = reason ∷ [] }

pub record ToolCall : Type 0 where
  pub tool : Str
  pub args : List (Str × Str)
  pub server : Str
  pub agent : Str

pub record Package : Type 0 where
  pub ecosystem : Str
  pub name : Str
  pub version : Str

pub record ShadowSignal : Type 0 where
  pub agent : Str
  pub source : Str
  pub user : Str

pub record Policy : Type 0 where
  pub denied_tools : List Str
  pub allowed_tools : List Str
  pub dangerous_arg_patterns : List Str
  pub denied_packages : List (Str × List Str)
  pub allowed_packages : List (Str × List Str)
  pub popular_packages : List (Str × List Str)
  pub risky_name_parts : List Str
  pub approved_agents : List Str

-- `m[k]` of a map of slices: a missing key gives the empty slice.
abbrev or_empty : Option (List Str) → List Str
or_empty none = []
or_empty (some names) = names

abbrev pub names_of : Str → List (Str × List Str) → List Str
names_of ecosystem m = or_empty (lookup ecosystem m)

unfoldable pub default_policy : Policy
unfolding bytes
default_policy = record {
  denied_tools = [];
  allowed_tools = [];
  dangerous_arg_patterns =
      bytes "rm -rf"
      ∷ bytes "| sh"
      ∷ bytes "| bash"
      ∷ bytes "curl | sh"
      ∷ bytes "wget | sh"
      ∷ bytes ":(){:|:&};:"
      ∷ bytes "mkfs"
      ∷ bytes "dd if="
      ∷ bytes "/etc/shadow"
      ∷ bytes "/etc/passwd"
      ∷ [];
  denied_packages = [];
  allowed_packages = [];
  popular_packages =
      (
        bytes "npm",
        bytes "react"
            ∷ bytes "lodash"
            ∷ bytes "express"
            ∷ bytes "axios"
            ∷ bytes "chalk"
            ∷ bytes "commander"
            ∷ bytes "webpack"
            ∷ bytes "next"
            ∷ bytes "vue"
            ∷ bytes "typescript"
            ∷ [],
      )
      ∷ (
        bytes "pypi",
        bytes "requests"
            ∷ bytes "numpy"
            ∷ bytes "pandas"
            ∷ bytes "flask"
            ∷ bytes "django"
            ∷ bytes "boto3"
            ∷ bytes "pytest"
            ∷ bytes "fastapi"
            ∷ bytes "pydantic"
            ∷ bytes "urllib3"
            ∷ [],
      )
      ∷ [];
  risky_name_parts =
      bytes "crypto-miner" ∷ bytes "keylogger" ∷ bytes "stealer" ∷ bytes "backdoor" ∷ [];
  approved_agents = bytes "claude-code" ∷ bytes "cursor" ∷ bytes "github-copilot" ∷ [];
}

abbrev pub is_empty {ℓ} : {A : Type ℓ} → List A → Bool
is_empty [] = true
is_empty (x ∷ xs) = false

-- The loop over the popular names of an ecosystem: the first that the name nearly misses.
unfoldable pub first_typosquat : Str → List Str → Option Str
unfolding near_miss ◌==◌
first_typosquat name [] = none
first_typosquat name (popular ∷ rest) =
    if not (name == popular) && near_miss name popular
    then some popular
    else first_typosquat name rest

-- `strings.ToLower` and `strings.EqualFold`, which go by the Unicode tables of Go's library.
pub record Casing : Type 0 where
  pub lower : Str → Str
  pub equal_fold : Str → Str → Bool

module _ (casing : Casing) where
  unfoldable pub contains : List Str → Str → Bool
  contains [] target = false
  contains (s ∷ ss) target = if casing.equal_fold s target then true else contains ss target

  -- The loop over the patterns: the first that is not empty and is in the lowered text.
  unfoldable pub first_pattern : Str → List Str → Option Str
  unfolding ◌==◌ contains_str
  first_pattern low [] = none
  first_pattern low (pat ∷ pats) =
      if not (pat == []) && contains_str low (casing.lower pat)
      then some pat
      else first_pattern low pats

  abbrev first_of : Option Str → Option Str → Option Str
  first_of none later = later
  first_of (some pat) later = some pat

  -- The loop over the arguments.
  unfoldable pub first_danger : List Str → List (Str × Str) → Option Str
  unfolding first_pattern
  first_danger pats [] = none
  first_danger pats (arg ∷ args) =
      first_of (first_pattern (casing.lower arg.1) pats) (first_danger pats args)

  -- The verdict that a match of a loop gives, and the code after the loop.
  abbrev on_match : Decision → Option Str → (Str → Str) → Verdict → Verdict
  on_match decision none reason after = after
  on_match decision (some found) reason after = because decision (reason found)

  unfoldable pub evaluate_tool_call : Policy → ToolCall → Verdict
  evaluate_tool_call p c =
      if contains p.denied_tools c.tool
      then because deny (bytes "tool '" ++ c.tool ++ bytes "' is on the deny list")
      else on_match deny (first_danger p.dangerous_arg_patterns c.args)
          (λ pat. bytes "argument contains a dangerous pattern: " ++ pat)
          (if not (is_empty p.allowed_tools) && not (contains p.allowed_tools c.tool)
            then because deny
                (bytes "tool '" ++ c.tool ++ bytes "' is not on the allow list (default-deny)")
            else because allow (bytes "tool call permitted by policy"))

  unfoldable pub screen_package : Policy → Package → Verdict
  screen_package p pkg =
      let allowed = names_of pkg.ecosystem p.allowed_packages in
      if contains (names_of pkg.ecosystem p.denied_packages) pkg.name
      then because deny (bytes "package '" ++ pkg.name ++ bytes "' is on the deny list")
      else on_match deny (first_typosquat pkg.name (names_of pkg.ecosystem p.popular_packages))
          (λ popular.
            bytes "package '"
            ++ pkg.name
            ++ bytes "' looks like a typosquat of '"
            ++ popular
            ++ bytes "'")
          (on_match review (first_pattern (casing.lower pkg.name) p.risky_name_parts)
            (λ part. bytes "package name contains a suspicious token: " ++ part)
            (if not (is_empty allowed) && not (contains allowed pkg.name)
              then because review
                  (bytes "package '" ++ pkg.name ++ bytes "' is not on the allow list")
              else because allow (bytes "package permitted by policy")))

  unfoldable pub classify_shadow : Policy → ShadowSignal → Verdict
  classify_shadow p s =
      if contains p.approved_agents s.agent
      then because allow (bytes "agent '" ++ s.agent ++ bytes "' is sanctioned")
      else because review
          (bytes "shadow AI: '" ++ s.agent ++ bytes "' is not in the approved registry")
