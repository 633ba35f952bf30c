-- ===== src/Gateway/Typosquat.antt =====
-- services/gateway/internal/domain/policy.go: names that differ by one edit.
pub mod Distance
use membrane_ai.Base.{
  ℕ, zero, suc, ◌+◌, ◌-◌, Bool, true, false, ◌&&◌, ◌||◌, not, List, [], ◌∷◌, Str, ◌==◌, length, eqb,
  ltb, leb, if◌then◌else◌,
}

-- `0x80 <= b <= 0xBF`
abbrev is_continuation : ℕ → Bool
is_continuation b = leb 0x80 b && leb b 0xBF

-- The second byte that UTF-8 accepts after a first byte of three or of four.
abbrev second_of_three : ℕ → ℕ → Bool
second_of_three a b =
    if eqb a 0xE0
    then leb 0xA0 b && leb b 0xBF
    else if eqb a 0xED
    then leb 0x80 b && leb b 0x9F
    else is_continuation b

abbrev second_of_four : ℕ → ℕ → Bool
second_of_four a b =
    if eqb a 0xF0
    then leb 0x90 b && leb b 0xBF
    else if eqb a 0xF4
    then leb 0x80 b && leb b 0x8F
    else is_continuation b

-- The bytes that follow the first one in the rune that starts with `a`, when the text goes on
-- with `s`: none, if the encoding is not valid.
unfoldable pub rune_tail : ℕ → Str → ℕ
rune_tail a (b ∷ c ∷ d ∷ s) =
    if leb 0xC2 a && leb a 0xDF && is_continuation b
    then 1
    else if leb 0xE0 a && leb a 0xEF && second_of_three a b && is_continuation c
    then 2
    else if leb 0xF0 a && leb a 0xF4 && second_of_four a b && is_continuation c && is_continuation d
    then 3
    else 0
rune_tail a (b ∷ c ∷ []) =
    if leb 0xC2 a && leb a 0xDF && is_continuation b
    then 1
    else if leb 0xE0 a && leb a 0xEF && second_of_three a b && is_continuation c
    then 2
    else 0
rune_tail a (b ∷ []) = if leb 0xC2 a && leb a 0xDF && is_continuation b then 1 else 0
rune_tail a [] = 0

-- The loop `for i := range a`, which visits the first byte of each rune of `a`: `skip` bytes are left
-- of the current rune, and `diffs` differences were seen. The texts have one length.
unfoldable pub count_diffs : ℕ → ℕ → Str → Str → Bool
unfolding rune_tail
count_diffs skip diffs [] b = eqb diffs 1
count_diffs skip diffs (x ∷ a) [] = false
count_diffs (suc skip) diffs (x ∷ a) (y ∷ b) = count_diffs skip diffs a b
count_diffs zero diffs (x ∷ a) (y ∷ b) =
    let same = count_diffs (rune_tail x a) diffs a b in
    let differs = count_diffs (rune_tail x a) (suc diffs) a b in
    if eqb x y then same else if ltb 1 (suc diffs) then false else differs

-- The loop over a text and one that is a byte longer.
unfoldable pub align : Str → Str → Bool
unfolding ◌==◌
align [] b = true
align (x ∷ a) [] = false
align (x ∷ a) (y ∷ b) = let rest = align a b in if not (eqb x y) then (x ∷ a) == b else rest

-- `editDistanceWithin1` on a text and one that is not shorter.
unfoldable pub within1 : Str → Str → Bool
unfolding count_diffs align
within1 a b =
    if ltb 1 (length b - length a)
    then false
    else if eqb (length a) (length b)
    then count_diffs 0 0 a b
    else align a b

unfoldable pub edit_distance_within1 : Str → Str → Bool
unfolding within1
edit_distance_within1 a b = if ltb (length b) (length a) then within1 b a else within1 a b

unfoldable pub near_miss : Str → Str → Bool
unfolding edit_distance_within1 ◌==◌
near_miss a b = if a == b then false else edit_distance_within1 a b
