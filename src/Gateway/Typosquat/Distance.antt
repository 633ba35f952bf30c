-- ===== src/Gateway/Typosquat/Distance.antt =====
-- What a near miss is: one byte replaced, added or removed.
use membrane_ai.Base.{
  ℕ, suc, ◌<◌, ◌≤◌, ◌≡◌, ◌≢◌, ◌↔◌, ◌⊎◌, refl, sym, ap, true, [], ◌∷◌, Str, ==_iff, length, All,
  arith, eqb, Bool-cases,
}
use mathlib.Core.Path.{subst}
use mathlib.Core.Logic.{inl, inr}
use membrane_ai.Gateway.Typosquat.{
  rune_tail, count_diffs, align, within1, edit_distance_within1, near_miss,
}

-- One byte of `a` stands for another one in `b`.
pub data Replaced : Str → Str → Type 0 where
  here : {x y : ℕ} (s : Str) → x ≢ y → Replaced (x ∷ s) (y ∷ s)
  later : {a b : Str} (x : ℕ) → Replaced a b → Replaced (x ∷ a) (x ∷ b)

-- `b` has one byte more than `a`.
pub data Added : Str → Str → Type 0 where
  here : (y : ℕ) (s : Str) → Added s (y ∷ s)
  later : {a b : Str} (x : ℕ) → Added a b → Added (x ∷ a) (x ∷ b)

abbrev pub OneEdit : Str → Str → Type 0
OneEdit a b = Replaced a b ⊎ (Added a b ⊎ Added b a)

abbrev pub IsAscii : Str → Type 0
IsAscii s = All (λ c. c < 0x80) s

rune_tail_ascii : (x : ℕ) (s : Str) → x < 0x80 → rune_tail x s ≡ 0
unfolding rune_tail
rune_tail_ascii x [] h = ground arith
rune_tail_ascii x (b ∷ []) h = ground arith
rune_tail_ascii x (b ∷ c ∷ []) h = ground arith
rune_tail_ascii x (b ∷ c ∷ d ∷ s) h = ground arith

-- The cases of an edit, by the first bytes.
Replaced-split :
    {x y : ℕ} {a b : Str}
    → Replaced (x ∷ a) (y ∷ b)
    → ((x ≢ y) × (a ≡ b)) ⊎ ((x ≡ y) × Replaced a b)
Replaced-split (here s d) = inl (d, refl)
Replaced-split (later x r) = inr (refl, r)

Replaced-same : {x y : ℕ} {a b : Str} → x ≡ y → Replaced a b → Replaced (x ∷ a) (y ∷ b)
Replaced-same {x = x} {a = a} {b = b} e r = subst (λ z. Replaced (x ∷ a) (z ∷ b)) e (later x r)

Replaced-here : {x y : ℕ} {a b : Str} → x ≢ y → a ≡ b → Replaced (x ∷ a) (y ∷ b)
Replaced-here {x = x} {y = y} {a = a} d e = subst (λ s. Replaced (x ∷ a) (y ∷ s)) e (here a d)

Replaced-length : {a b : Str} → Replaced a b → length a ≡ length b
Replaced-length (here s d) = refl
Replaced-length (later x r) = omega (arith, Replaced-length r)

Added-length : {a b : Str} → Added a b → length b ≡ suc (length a)
Added-length (here y s) = refl
Added-length (later x r) = omega (arith, Added-length r)

Added-same : {x y : ℕ} {a b : Str} → x ≡ y → Added a b → Added (x ∷ a) (y ∷ b)
Added-same {x = x} {a = a} {b = b} e r = subst (λ z. Added (x ∷ a) (z ∷ b)) e (later x r)

-- The first place where the longer text differs is where the byte was added.
Added-split :
    {x y : ℕ} {a b : Str} → Added (x ∷ a) (y ∷ b) → ((x ≢ y) × (x ∷ a ≡ b)) ⊎ ((x ≡ y) × Added a b)
Added-split {x = x} {a = a} (here y s) = elim (Bool-cases (eqb x y)) [
  | inl same ↦ inr (ground (arith, same), here x a)
  | inr differs ↦ inl (ground (arith, differs), refl)
]
Added-split (later x r) = inr (refl, r)

Added-here : {y : ℕ} {a b : Str} → a ≡ b → Added a (y ∷ b)
Added-here {y = y} {a = a} e = subst (λ s. Added a (y ∷ s)) e (here y a)

Replaced-nonempty : {b : Str} → ¬ Replaced [] b
Replaced-nonempty = elim [ ]

Added-single : {b : Str} → length b ≡ 1 → Added [] b
Added-single {b = []} e = absurd (ground arith)
Added-single {b = y ∷ []} e = here y []
Added-single {b = y ∷ z ∷ b} e = absurd (omega (arith, e))

count_diffs-one :
    (a b : Str) → IsAscii a → length a ≡ length b → (count_diffs 0 1 a b ≡ true) ↔ (a ≡ b)
unfolding count_diffs
count_diffs-one [] [] h e = ground arith
count_diffs-one [] (y ∷ b) h e = ground arith
count_diffs-one (x ∷ a) [] h e = ground arith
count_diffs-one (x ∷ a) (y ∷ b) (p, h) e =
    rw (rune_tail_ascii x a p) (ground (arith, count_diffs-one a b h (omega (arith, e))))

count_diffs-zero :
    (a b : Str) → IsAscii a → length a ≡ length b → (count_diffs 0 0 a b ≡ true) ↔ Replaced a b
unfolding count_diffs
count_diffs-zero [] [] h e = (λ e. absurd (ground arith), λ r. absurd (Replaced-nonempty r))
count_diffs-zero [] (y ∷ b) h e = absurd (omega (arith, e))
count_diffs-zero (x ∷ a) [] h e = absurd (omega (arith, e))
count_diffs-zero (x ∷ a) (y ∷ b) (p, h) e =
    let shorter : length a ≡ length b = omega (arith, e) in
    rw (rune_tail_ascii x a p) (
      ground (
        arith,
        count_diffs-one a b h shorter,
        count_diffs-zero a b h shorter,
        Replaced-split {x = x} {y = y} {a = a} {b = b},
        Replaced-same {x = x} {y = y} {a = a} {b = b},
        Replaced-here {x = x} {y = y} {a = a} {b = b},
      ))

align_iff : (a b : Str) → length b ≡ suc (length a) → (align a b ≡ true) ↔ Added a b
unfolding align
align_iff [] b e = (λ _. Added-single e, λ _. refl)
align_iff (x ∷ a) [] e = absurd (omega (arith, e))
align_iff (x ∷ a) (y ∷ b) e =
    let shorter : length b ≡ suc (length a) = omega (arith, e) in
    ground (
      arith,
      ==_iff (x ∷ a) b,
      align_iff a b shorter,
      Added-split {x = x} {y = y} {a = a} {b = b},
      Added-same {x = x} {y = y} {a = a} {b = b},
      Added-here {y = y} {a = x ∷ a} {b = b},
    )

within1_iff :
    (a b : Str)
    → IsAscii a
    → length a ≤ length b
    → (within1 a b ≡ true) ↔ (Replaced a b ⊎ Added a b)
unfolding within1
within1_iff a b h le = ground (
  arith,
  count_diffs-zero a b h,
  align_iff a b,
  Replaced-length {a = a} {b = b},
  Added-length {a = a} {b = b},
)

Replaced-sym : {a b : Str} → Replaced a b → Replaced b a
Replaced-sym (here s d) = here s (λ e. d (sym e))
Replaced-sym (later x r) = later x (Replaced-sym r)

Replaced-differ : {a b : Str} → Replaced a b → a ≢ b
Replaced-differ (here s d) = λ e. d (ground (arith, e))
Replaced-differ (later x r) = λ e. Replaced-differ r (ground (arith, e))

pub OneEdit-differ : {a b : Str} → OneEdit a b → a ≢ b
OneEdit-differ (inl r) = Replaced-differ r
OneEdit-differ (inr (inl added)) = λ e. absurd (omega (arith, Added-length added, ap length e))
OneEdit-differ (inr (inr removed)) = λ e. absurd (omega (arith, Added-length removed, ap length e))

edit_distance_within1_iff :
    (a b : Str) → IsAscii a → IsAscii b → (edit_distance_within1 a b ≡ true) ↔ OneEdit a b
unfolding edit_distance_within1
edit_distance_within1_iff a b h k = ground (
  arith,
  within1_iff a b h,
  within1_iff b a k,
  Replaced-length {a = a} {b = b},
  Replaced-sym {a = a} {b = b},
  Replaced-sym {a = b} {b = a},
  Added-length {a = a} {b = b},
  Added-length {a = b} {b = a},
)

-- On ASCII names, `nearMiss` finds exactly the pairs where one byte is replaced, added or removed, in
-- either order of the two.
pub near_miss_iff : (a b : Str) → IsAscii a → IsAscii b → (near_miss a b ≡ true) ↔ OneEdit a b
unfolding near_miss
near_miss_iff a b h k =
    ground (arith, edit_distance_within1_iff a b h k, ==_iff a b, OneEdit-differ {a = a} {b = b})
