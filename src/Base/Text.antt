-- ===== src/Base/Text.antt =====
-- Go strings are byte sequences. The functions of package strings that the program calls, on bytes.
use Prim.Native.Nat.{ℕ, zero, suc, ◌+◌, ◌/◌, ◌%◌}
use Prim.Native.Char.{code}
use Prim.Native.String.{String}
use mathlib.Core.Path.{◌≡◌, refl}
use mathlib.Core.Logic.{◌↔◌, ◌≢◌}
use mathlib.Core.Bool.{Bool, true, false, ◌&&◌, ◌||◌}
use mathlib.Core.Option.{Option, none, some}
use mathlib.Core.List.{List, [], ◌∷◌, ◌++◌, map, reverse}
use native.Mathlib.Omega.{arith}
use membrane_ai.Base.Tests.{ltb, leb, eqb, if◌then◌else◌}
use membrane_ai.Base.Lists.{length}

abbrev pub Str : Type 0
Str = List ℕ

-- The UTF-8 encoding of a code point.
utf8 : ℕ → Str
utf8 c =
    if ltb c 0x80
    then c ∷ []
    else if ltb c 0x800
    then (0xC0 + c / 64) ∷ (0x80 + c % 64) ∷ []
    else if ltb c 0x10000
    then (0xE0 + c / 4096) ∷ (0x80 + c / 64 % 64) ∷ (0x80 + c % 64) ∷ []
    else (0xF0 + c / 262144) ∷ (0x80 + c / 4096 % 64) ∷ (0x80 + c / 64 % 64) ∷ (0x80 + c % 64) ∷ []

-- A string literal.
unfoldable pub bytes : String → Str
unfolding utf8
bytes String.[] = []
bytes (String.◌∷◌ c s) = utf8 (code c) ++ bytes s

infix 50 ◌==◌
unfoldable pub ◌==◌ : Str → Str → Bool
[] == [] = true
[] == (b ∷ t) = false
(a ∷ s) == [] = false
(a ∷ s) == (b ∷ t) = eqb a b && s == t

pub ==_iff : (s t : Str) → ((s == t) ≡ true) ↔ (s ≡ t)
unfolding ◌==◌
==_iff [] [] = ground arith
==_iff [] (b ∷ t) = ground arith
==_iff (a ∷ s) [] = ground arith
==_iff (a ∷ s) (b ∷ t) = ground (arith, ==_iff s t)

pub ==_refl : (s : Str) → (s == s) ≡ true
==_refl s = (==_iff s s).1 refl

pub ==_apart : (s t : Str) → (s == t) ≡ false → s ≢ t
==_apart s t h = ground (arith, h, ==_iff s t)

-- `unicode.IsSpace` on the bytes of one rune: U+0009 to U+000D and U+0020 take one byte.
space1 : ℕ → Bool
space1 a = eqb a 32 || leb 9 a && leb a 13

-- U+0085 and U+00A0.
space2 : ℕ → ℕ → Bool
space2 a b = eqb a 0xC2 && (eqb b 0x85 || eqb b 0xA0)

-- U+1680, U+2000 to U+200A, U+2028, U+2029, U+202F, U+205F and U+3000.
space3 : ℕ → ℕ → ℕ → Bool
space3 a b c =
    eqb a 0xE1 && eqb b 0x9A && eqb c 0x80
    || eqb a 0xE2
      && eqb b 0x80
      && (leb 0x80 c && leb c 0x8A || eqb c 0xA8 || eqb c 0xA9 || eqb c 0xAF)
    || eqb a 0xE2 && eqb b 0x81 && eqb c 0x9F
    || eqb a 0xE3 && eqb b 0x80 && eqb c 0x80

-- What is left of the text without the white space at its start, if there is any.
unfoldable pub space_prefix : Str → Option Str
unfolding space1 space2 space3
space_prefix [] = none
space_prefix (a ∷ []) = if space1 a then some [] else none
space_prefix (a ∷ b ∷ []) = if space1 a then some (b ∷ []) else if space2 a b then some [] else none
space_prefix (a ∷ b ∷ c ∷ s) =
    if space1 a
    then some (b ∷ c ∷ s)
    else if space2 a b
    then some (c ∷ s)
    else if space3 a b c
    then some s
    else none

-- The same at the end of a text, given in reverse.
unfoldable pub space_suffix : Str → Option Str
unfolding space1 space2 space3
space_suffix [] = none
space_suffix (c ∷ []) = if space1 c then some [] else none
space_suffix (c ∷ b ∷ []) = if space1 c then some (b ∷ []) else if space2 b c then some [] else none
space_suffix (c ∷ b ∷ a ∷ s) =
    if space1 c
    then some (b ∷ a ∷ s)
    else if space2 b c
    then some (a ∷ s)
    else if space3 a b c
    then some s
    else none

-- Drops white space while there is some; the length of the text bounds the rounds.
abbrev pub go_on : Str → (Str → Str) → Option Str → Str
go_on s next none = s
go_on s next (some r) = next r

unfoldable pub strip : (Str → Option Str) → ℕ → Str → Str
strip drop_one zero s = s
strip drop_one (suc n) s = go_on s (λ r. strip drop_one n r) (drop_one s)

-- `strings.TrimSpace`
unfoldable pub trim_space : Str → Str
unfolding strip space_prefix space_suffix
trim_space s =
    let start = strip space_prefix (length s) s in
    reverse (strip space_suffix (length start) (reverse start))

-- `strings.TrimSpace(s) == ""`
unfoldable pub is_blank : Str → Bool
unfolding trim_space ◌==◌
is_blank s = trim_space s == []

-- `strings.HasPrefix(s, p)`
unfoldable pub has_prefix : Str → Str → Bool
has_prefix s [] = true
has_prefix [] (p ∷ ps) = false
has_prefix (a ∷ s) (p ∷ ps) = eqb a p && has_prefix s ps

-- `strings.Contains(s, p)`
unfoldable pub contains_str : Str → Str → Bool
unfolding has_prefix
contains_str [] p = has_prefix [] p
contains_str (a ∷ s) p = has_prefix (a ∷ s) p || contains_str s p

abbrev lower1 : ℕ → ℕ
lower1 c = if leb b'A' c && leb c b'Z' then c + 32 else c

-- `strings.ToLower` on ASCII text.
unfoldable pub to_lower_ascii : Str → Str
to_lower_ascii = map lower1

trim_space_ascii : trim_space (bytes " \t a b\n") ≡ bytes "a b"
unfolding trim_space bytes
trim_space_ascii = refl

trim_space_unicode : trim_space (bytes "\u{3000}é\u{a0}") ≡ bytes "é"
unfolding trim_space bytes
trim_space_unicode = refl
