-- ===== src/Base/Decimal.antt =====
-- `%d` of package fmt, on a number that is not negative.
use Prim.Native.Nat.{ℕ, zero, suc, ◌+◌, ◌*◌, ◌-◌, ◌/◌, ◌%◌, ◌<◌}
use mathlib.Core.Path.{◌≡◌, ap, ◌∙◌}
use mathlib.Core.Logic.{inl, inr}
use mathlib.Core.List.{[], ◌∷◌}
use native.Mathlib.Omega.{arith}
use membrane_ai.Base.Tests.{ltb, Bool-cases, if◌then◌else◌}
use membrane_ai.Base.Text.{Str}

-- The digits before those in `later`.
unfoldable pub digits : ℕ → ℕ → Str → Str
digits zero n later = later
digits (suc fuel) n later =
    let more = digits fuel (n / 10) ((48 + n % 10) ∷ later) in
    if ltb n 10 then (48 + n) ∷ later else more

unfoldable pub decimal : ℕ → Str
unfolding digits
decimal n = digits (suc n) n []

-- The number that digits stand for, after the number of those before them.
unfoldable pub number : ℕ → Str → ℕ
number before [] = before
number before (d ∷ ds) = number (before * 10 + (d - 48)) ds

number-digits :
    (fuel n : ℕ) (later : Str) → n < fuel → number 0 (digits fuel n later) ≡ number n later
unfolding digits number
number-digits zero n later h = absurd (omega (arith, h))
number-digits (suc fuel) n later h = elim (Bool-cases (ltb n 10)) [
  | inl small ↦ rw small (ap (λ k. number k later) (omega arith))
  | inr big ↦ rw big (
      number-digits (fuel) (n / 10) ((48 + n % 10) ∷ later) (ground (arith, big, h))
      ∙ ap (λ k. number k later) (omega arith))
]

-- The text stands for the number: the fuel is enough.
pub number-decimal : (n : ℕ) → number 0 (decimal n) ≡ n
unfolding decimal number
number-decimal n = number-digits (suc n) n [] (omega arith)
