-- ===== src/Base/Substring.antt =====
-- What `strings.HasPrefix` and `strings.Contains` find.
use mathlib.Core.Path.{◌≡◌, refl, sym, ap, subst}
use mathlib.Core.Logic.{◌↔◌, inl, inr}
use membrane_ai.Base.Tests.{Bool-cases}
use mathlib.Core.Bool.{true}
use mathlib.Core.List.{[], ◌∷◌, ◌++◌}
use native.Mathlib.Omega.{arith}
use membrane_ai.Base.Text.{Str, has_prefix, contains_str}

has_prefix-append : (p rest : Str) → has_prefix (p ++ rest) p ≡ true
unfolding has_prefix
has_prefix-append [] rest = refl
has_prefix-append (a ∷ p) rest = ground (arith, has_prefix-append p rest)

has_prefix-split : (s p : Str) → has_prefix s p ≡ true → (rest : Str) × (s ≡ p ++ rest)
unfolding has_prefix
has_prefix-split s [] h = (s, refl)
has_prefix-split [] (b ∷ p) h = absurd (ground arith)
has_prefix-split (a ∷ s) (b ∷ p) h =
    let (rest, e) = has_prefix-split s p (ground arith) in (rest, ground (arith, h, e))

-- The text is in `s`.
abbrev pub IsIn : Str → Str → Type 0
IsIn p s = (before after : Str) × (s ≡ before ++ p ++ after)

contains_str-has_prefix : (s p : Str) → has_prefix s p ≡ true → contains_str s p ≡ true
unfolding contains_str
contains_str-has_prefix [] p h = h
contains_str-has_prefix (a ∷ s) p h = ground (arith, h)

contains_str-append : (before p after : Str) → contains_str (before ++ p ++ after) p ≡ true
unfolding contains_str
contains_str-append [] p after = contains_str-has_prefix (p ++ after) p (has_prefix-append p after)
contains_str-append (a ∷ before) p after = ground (arith, contains_str-append before p after)

contains_str-split : (s p : Str) → contains_str s p ≡ true → IsIn p s
unfolding contains_str
contains_str-split [] p h = let (rest, e) = has_prefix-split [] p h in ([], rest, e)
contains_str-split (a ∷ s) p h = elim (Bool-cases (has_prefix (a ∷ s) p)) [
  | inl starts ↦ let (rest, e) = has_prefix-split (a ∷ s) p starts in ([], rest, e)
  | inr other ↦
      let (before, after, e) = contains_str-split s p (ground (arith, other, h)) in
      (a ∷ before, after, ap (λ r. a ∷ r) e)
]

pub contains_str_iff : (s p : Str) → (contains_str s p ≡ true) ↔ IsIn p s
contains_str_iff s p = (
  contains_str-split s p,
  λ (before, after, e).
      subst (λ r. contains_str r p ≡ true) (sym e) (contains_str-append before p after),
)
