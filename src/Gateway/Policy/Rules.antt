-- ===== src/Gateway/Policy/Rules.antt =====
-- When a tool call is denied, whatever the order of its arguments.
use mathlib.Core.List.{Perm, Permᴰ}
use mathlib.Core.List.Permᴰ
use mathlib.Core.Path.{subst}
use mathlib.Core.Logic.{∥∥₁_elim}
use membrane_ai.Base.{
  ◌≡◌, ◌≢◌, ◌↔◌, ◌⊎◌, inl, inr, refl, true, none, List, [], ◌∷◌, Str, ==_iff, Any, arith,
}
use membrane_ai.Base.Substring.{IsIn, contains_str_iff}
use membrane_ai.Gateway.Policy.{
  Decision, deny, review, ToolCall, Policy, Casing, contains, first_pattern, first_danger,
  evaluate_tool_call,
}

Any-perm : {A : Type 0} (P : A → Type 0) {xs ys : List A} → Permᴰ xs ys → Any P xs → Any P ys
Any-perm P Permᴰ.nil h = h
Any-perm P (Permᴰ.cons e q) (inl p) = inl (subst P e p)
Any-perm P (Permᴰ.cons e q) (inr h) = inr (Any-perm P q h)
Any-perm P (Permᴰ.swap e d) (inl p) = inr (inl (subst P e p))
Any-perm P (Permᴰ.swap e d) (inr (inl p)) = inl (subst P d p)
Any-perm P (Permᴰ.swap e d) (inr (inr h)) = inr (inr h)
Any-perm P (Permᴰ.trans q r) h = Any-perm P r (Any-perm P q h)

Decision-set : IsSet Decision
Decision-set = hlevel

decisions_agree :
    {d d' : Decision}
    → d ≢ review
    → d' ≢ review
    → (d ≡ deny → d' ≡ deny)
    → (d' ≡ deny → d ≡ deny)
    → d ≡ d'
decisions_agree {d = d} {d' = d'} n n' h k = ground arith

module _ (casing : Casing) where
  -- The name is on the list, up to case.
  abbrev pub IsListed : Str → List Str → Type 0
  IsListed t names = Any (λ s. casing.equal_fold s t ≡ true) names

  -- One of the patterns, which is not empty, is in the text, up to case.
  abbrev pub HasPattern : List Str → Str → Type 0
  HasPattern pats s = Any (λ pat. (pat ≢ []) × IsIn (casing.lower pat) (casing.lower s)) pats

  pub contains_iff :
      (names : List Str) (t : Str) → (contains casing names t ≡ true) ↔ IsListed t names
  unfolding contains
  contains_iff [] t = ground arith
  contains_iff (s ∷ names) t = ground (arith, contains_iff names t)

  pub first_pattern_iff :
      (pats : List Str) (s : Str)
      → (first_pattern casing (casing.lower s) pats ≢ none) ↔ HasPattern pats s
  unfolding first_pattern
  first_pattern_iff [] s = ground arith
  first_pattern_iff (pat ∷ pats) s = ground (
    arith,
    first_pattern_iff pats s,
    ==_iff pat [],
    contains_str_iff (casing.lower s) (casing.lower pat),
  )

  -- Some argument has one of the patterns.
  abbrev pub IsDangerous : List Str → List (Str × Str) → Type 0
  IsDangerous pats args = Any (λ (arg : Str × Str). HasPattern pats arg.1) args

  first_danger_iff :
      (pats : List Str) (args : List (Str × Str))
      → (first_danger casing pats args ≢ none) ↔ IsDangerous pats args
  unfolding first_danger
  first_danger_iff pats [] = ground arith
  first_danger_iff pats (arg ∷ args) =
      ground (arith, first_pattern_iff pats arg.1, first_danger_iff pats args)

  -- There is an allow list, and the name is not on it.
  abbrev pub IsUnlisted : Str → List Str → Type 0
  IsUnlisted t names = (names ≢ []) × ¬ IsListed t names

  -- A tool call is denied exactly if its tool is on the deny list, or an argument has a dangerous
  -- pattern, or there is an allow list without the tool; it is never put up for review.
  pub evaluate_tool_call_iff :
      (p : Policy) (c : ToolCall)
      → (((evaluate_tool_call casing p c).decision ≡ deny) ↔ (
          IsListed c.tool p.denied_tools
          ⊎ (IsDangerous p.dangerous_arg_patterns c.args ⊎ IsUnlisted c.tool p.allowed_tools)))
        × ((evaluate_tool_call casing p c).decision ≢ review)
  unfolding evaluate_tool_call
  evaluate_tool_call_iff p c = ground (
    arith,
    contains_iff p.denied_tools c.tool,
    contains_iff p.allowed_tools c.tool,
    first_danger_iff p.dangerous_arg_patterns c.args,
  )

  -- The decision on one call is denial if that on the other one is.
  denied_also :
      (p : Policy) (c c' : ToolCall)
      → c.tool ≡ c'.tool
      → (IsDangerous p.dangerous_arg_patterns c.args → IsDangerous p.dangerous_arg_patterns c'.args)
      → (evaluate_tool_call casing p c).decision ≡ deny
      → (evaluate_tool_call casing p c').decision ≡ deny
  denied_also p c c' same also denied =
      let forbidden = (evaluate_tool_call_iff p c).0.0 denied in
      (evaluate_tool_call_iff p c').0.1 (elim forbidden [
        | inl listed ↦ inl (subst (λ t. IsListed t p.denied_tools) same listed)
        | inr (inl danger) ↦ inr (inl (also danger))
        | inr (inr unlisted) ↦ inr (inr (subst (λ t. IsUnlisted t p.allowed_tools) same unlisted))
      ])

  -- The order of the arguments, which a Go map leaves open, does not change the decision.
  pub evaluate_tool_call-perm :
      (p : Policy) (c : ToolCall) (args : List (Str × Str))
      → Perm c.args args
      → (evaluate_tool_call casing p (record c { args = args })).decision
        ≡ (evaluate_tool_call casing p c).decision
  evaluate_tool_call-perm p c args same =
      ∥∥₁_elim same (λ q r. Decision-set _ _ q r)
        (λ q.
          let c' : ToolCall = record c { args = args } in
          decisions_agree (evaluate_tool_call_iff p c').1 (evaluate_tool_call_iff p c).1
            (denied_also p c' c refl (Any-perm _ (Permᴰ.symm q)))
            (denied_also p c c' refl (Any-perm _ q)))
