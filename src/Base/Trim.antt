-- ===== src/Base/Trim.antt =====
-- What is left of a text after `strings.TrimSpace`: it has no white space at its ends, so trimming it
-- again does nothing.
use Prim.Native.Nat.{ℕ, zero, suc, ◌+◌, ◌<◌, ◌≤◌}
use mathlib.Core.Path.{◌≡◌, refl, sym, ap, ◌∙◌}
use mathlib.Core.Logic.{◌⊎◌, inl, inr}
use mathlib.Core.Option.{Option, none, some}
use mathlib.Core.List.{[], ◌∷◌, ◌++◌, reverse, reverse_aux, append_assoc, append-nil}
use native.Mathlib.Omega.{arith}
use membrane_ai.Base.Tests.{Option-cases}
use membrane_ai.Base.Lists.{length}
use membrane_ai.Base.Text.{
  Str, go_on, strip, space_prefix, space_suffix, trim_space, is_blank, ◌==◌,
}

-- A step drops something from the front of its text.
abbrev Drops : (Str → Option Str) → Type 0
Drops drop_one =
    (s r : Str) → drop_one s ≡ some r → (d : Str) × (s ≡ d ++ r) × (length r < length s)

dropped_one :
    (a : ℕ) (s r : Str) → r ≡ s → (d : Str) × (a ∷ s ≡ d ++ r) × (length r < length (a ∷ s))
dropped_one a s r e = (a ∷ [], ap (λ x. a ∷ x) (sym e), ground (arith, e))

dropped_two :
    (a b : ℕ) (s r : Str)
    → r ≡ s
    → (d : Str) × (a ∷ b ∷ s ≡ d ++ r) × (length r < length (a ∷ b ∷ s))
dropped_two a b s r e = (a ∷ b ∷ [], ap (λ x. a ∷ b ∷ x) (sym e), ground (arith, e))

dropped_three :
    (a b c : ℕ) (s r : Str)
    → r ≡ s
    → (d : Str) × (a ∷ b ∷ c ∷ s ≡ d ++ r) × (length r < length (a ∷ b ∷ c ∷ s))
dropped_three a b c s r e = (a ∷ b ∷ c ∷ [], ap (λ x. a ∷ b ∷ c ∷ x) (sym e), ground (arith, e))

-- A step drops one byte, two or three.
record IsStep (drop_one : Str → Option Str) : Type 0 where
  empty : drop_one [] ≡ none
  one : (a : ℕ) (r : Str) → drop_one (a ∷ []) ≡ some r → r ≡ []
  two : (a b : ℕ) (r : Str) → drop_one (a ∷ b ∷ []) ≡ some r → (r ≡ b ∷ []) ⊎ (r ≡ [])
  three :
      (a b c : ℕ) (s r : Str)
      → drop_one (a ∷ b ∷ c ∷ s) ≡ some r
      → (r ≡ b ∷ c ∷ s) ⊎ ((r ≡ c ∷ s) ⊎ (r ≡ s))

space_prefix-IsStep : IsStep space_prefix
unfolding space_prefix
space_prefix-IsStep = record {
  empty = refl;
  one = λ a r h. ground (arith, h);
  two = λ a b r h. ground (arith, h);
  three = λ a b c s r h. ground (arith, h);
}

space_suffix-IsStep : IsStep space_suffix
unfolding space_suffix
space_suffix-IsStep = record {
  empty = refl;
  one = λ a r h. ground (arith, h);
  two = λ a b r h. ground (arith, h);
  three = λ a b c s r h. ground (arith, h);
}

module _ {drop_one : Str → Option Str} (step : IsStep drop_one) where
  drops : Drops drop_one
  drops [] r h = absurd (cc (h, step.empty))
  drops (a ∷ []) r h = dropped_one a [] r (step.one a r h)
  drops (a ∷ b ∷ []) r h = elim (step.two a b r h) [
    | inl e ↦ dropped_one a (b ∷ []) r e
    | inr e ↦ dropped_two a b [] r e
  ]
  drops (a ∷ b ∷ c ∷ s) r h = elim (step.three a b c s r h) [
    | inl e ↦ dropped_one a (b ∷ c ∷ s) r e
    | inr (inl e) ↦ dropped_two a b (c ∷ s) r e
    | inr (inr e) ↦ dropped_three a b c s r e
  ]

  -- Where there is nothing to drop, nothing is dropped.
  strip-idle : (n : ℕ) (s : Str) → drop_one s ≡ none → strip drop_one n s ≡ s
  unfolding strip
  strip-idle zero s h = refl
  strip-idle (suc n) s h = rw (h, go_on) refl

  -- The fuel is enough: nothing is left to drop.
  strip-none : (n : ℕ) (s : Str) → length s ≤ n → drop_one (strip drop_one n s) ≡ none
  unfolding strip
  strip-none zero [] h = step.empty
  strip-none zero (a ∷ s) h = absurd (omega (arith, h))
  strip-none (suc n) s h = elim (Option-cases (drop_one s)) [
    | inl e ↦ ap (λ o. drop_one (go_on s (λ r. strip drop_one n r) o)) e ∙ e
    | inr (r, e) ↦
        let (_, _, shorter) = drops s r e in
        ap (λ o. drop_one (go_on s (λ r. strip drop_one n r) o)) e
        ∙ strip-none n r (omega (arith, shorter, h))
  ]

  -- What is left is the end of the text.
  strip-suffix : (n : ℕ) (s : Str) → (d : Str) × (s ≡ d ++ strip drop_one n s)
  unfolding strip
  strip-suffix zero s = ([], refl)
  strip-suffix (suc n) s = elim (Option-cases (drop_one s)) [
    | inl e ↦ ([], ap (λ o. go_on s (λ r. strip drop_one n r) o) (sym e))
    | inr (r, e) ↦
        let (d, split, _) = drops s r e in
        let (d', rest) = strip-suffix n r in
        (
          d ++ d',
          split
              ∙ ap (λ x. d ++ x) rest
              ∙ sym (append_assoc d d' (strip drop_one n r))
              ∙ ap (λ o. (d ++ d') ++ go_on s (λ r. strip drop_one n r) o) (sym e),
        )
  ]

-- White space at the start of a text is at the start of any longer one.
space_prefix-front : (s t : Str) → space_prefix (s ++ t) ≡ none → space_prefix s ≡ none
unfolding space_prefix
space_prefix-front [] t h = refl
space_prefix-front (a ∷ []) [] h = h
space_prefix-front (a ∷ []) (b ∷ []) h = ground (arith, h)
space_prefix-front (a ∷ []) (b ∷ c ∷ t) h = ground (arith, h)
space_prefix-front (a ∷ b ∷ []) [] h = h
space_prefix-front (a ∷ b ∷ []) (c ∷ t) h = ground (arith, h)
space_prefix-front (a ∷ b ∷ c ∷ s) t h = ground (arith, h)

length-reverse_aux : (s t : Str) → length (reverse_aux s t) ≡ length s + length t
length-reverse_aux [] t = omega arith
length-reverse_aux (a ∷ s) t = omega (arith, length-reverse_aux s (a ∷ t))

reverse_aux_twice : (s t r : Str) → reverse_aux (reverse_aux s t) r ≡ reverse_aux t (s ++ r)
reverse_aux_twice [] t r = refl
reverse_aux_twice (a ∷ s) t r = reverse_aux_twice s (a ∷ t) r

reverse_aux-append : (s t r : Str) → reverse_aux (s ++ t) r ≡ reverse_aux t (reverse_aux s r)
reverse_aux-append [] t r = refl
reverse_aux-append (a ∷ s) t r = reverse_aux-append s t (a ∷ r)

reverse_aux-eq-append : (s t : Str) → reverse_aux s t ≡ reverse s ++ t
reverse_aux-eq-append [] t = refl
reverse_aux-eq-append (a ∷ s) t =
    reverse_aux-eq-append s (a ∷ t)
    ∙ sym (append_assoc (reverse s) (a ∷ []) t)
    ∙ ap (λ x. x ++ t) (sym (reverse_aux-eq-append s (a ∷ [])))

reverse-reverse : (s : Str) → reverse (reverse s) ≡ s
reverse-reverse s = reverse_aux_twice s [] [] ∙ append-nil s

-- If the reverse of `u` ends with `w`, then `u` starts with the reverse of `w`.
reverse-front : (u d w : Str) → reverse u ≡ d ++ w → u ≡ reverse w ++ reverse d
reverse-front u d w e =
    sym (reverse-reverse u)
    ∙ ap reverse e
    ∙ reverse_aux-append d w []
    ∙ reverse_aux-eq-append w (reverse d)

trim_space-edges :
    (s : Str)
    → (u w d : Str) × (trim_space s ≡ reverse w)
      × (space_prefix u ≡ none)
      × (space_suffix w ≡ none)
      × (reverse u ≡ d ++ w)
unfolding trim_space
trim_space-edges s =
    let u = strip space_prefix (length s) s in
    let w = strip space_suffix (length u) (reverse u) in
    let (d, split) = strip-suffix space_suffix-IsStep (length u) (reverse u) in
    (
      u,
      w,
      d,
      refl,
      strip-none space_prefix-IsStep (length s) s (omega arith),
      strip-none space_suffix-IsStep (length u) (reverse u)
          (omega (arith, length-reverse_aux u [])),
      split,
    )

trim_space_idle :
    (w : Str)
    → space_prefix (reverse w) ≡ none
    → space_suffix w ≡ none
    → trim_space (reverse w) ≡ reverse w
unfolding trim_space
trim_space_idle w front back =
    let kept = strip-idle space_prefix-IsStep (length (reverse w)) (reverse w) front in
    ap (λ u. reverse (strip space_suffix (length u) (reverse u))) kept
    ∙ ap (λ r. reverse (strip space_suffix (length (reverse w)) r)) (reverse-reverse w)
    ∙ ap reverse (strip-idle space_suffix-IsStep (length (reverse w)) w back)

pub trim_space_idem : (s : Str) → trim_space (trim_space s) ≡ trim_space s
trim_space_idem s =
    let (u, w, d, trimmed, front, back, split) = trim_space-edges s in
    let starts = reverse-front u d w split in
    let front' =
      space_prefix-front (reverse w) (reverse d) (sym (ap space_prefix starts) ∙ front) in
    ap trim_space trimmed ∙ trim_space_idle w front' back ∙ sym trimmed

pub is_blank-trim_space : (s : Str) → is_blank (trim_space s) ≡ is_blank s
unfolding is_blank
is_blank-trim_space s = ap (λ t. t == []) (trim_space_idem s)
