-- ===== src/Assurance/Client/Escape.antt =====
-- pkg/assurance/httpclient.go: `urlPathEscape`, and the decoder of percent-encoding that it is an
-- inverse of.
use Prim.Native.Nat.{◌/◌, ◌%◌, ◌-◌}
use membrane_ai.Base.{
  ℕ, ◌+◌, ◌*◌, ◌<◌, ◌≡◌, ◌≢◌, refl, true, ap, ◌∙◌, Bool, ◌||◌, ◌&&◌, Option, none, some, [], ◌∷◌,
  Str, All, arith, eqb, ltb, leb, if◌then◌else◌, Bool-cases, inl, inr,
}

-- The bytes that stand for themselves.
abbrev pub is_unreserved : ℕ → Bool
is_unreserved c =
    leb b'a' c && leb c b'z'
    || leb b'A' c && leb c b'Z'
    || leb b'0' c && leb c b'9'
    || eqb c b'-'
    || eqb c b'_'
    || eqb c b'.'
    || eqb c b'~'

-- `hex[n]` for n below 16
abbrev pub hex_digit : ℕ → ℕ
hex_digit n = if ltb n 10 then b'0' + n else 55 + n

unfoldable pub url_path_escape : Str → Str
url_path_escape [] = []
url_path_escape (c ∷ s) =
    let rest = url_path_escape s in
    if is_unreserved c then c ∷ rest else b'%' ∷ hex_digit (c / 16) ∷ hex_digit (c % 16) ∷ rest

-- The reference: what a server reads, after a `%` or after its first digit.
data Pending : Type 0 where
  text high : Pending
  low : ℕ → Pending

unhex : ℕ → Option ℕ
unhex c =
    if leb b'0' c && leb c b'9'
    then some (c - b'0')
    else if leb b'A' c && leb c b'F'
    then some (c - 55)
    else if leb b'a' c && leb c b'f'
    then some (c - 87)
    else none

abbrev onto : ℕ → Option Str → Option Str
onto c none = none
onto c (some s) = some (c ∷ s)

abbrev then_digit : Option ℕ → (ℕ → Option Str) → Option Str
then_digit none k = none
then_digit (some n) k = k n

decode : Pending → Str → Option Str
decode text [] = some []
decode text (c ∷ s) =
    let escaped = decode high s in
    let kept = onto c (decode text s) in if eqb c b'%' then escaped else kept
decode high [] = none
decode high (c ∷ s) = then_digit (unhex c) (λ h. decode (low h) s)
decode (low h) [] = none
decode (low h) (c ∷ s) = then_digit (unhex c) (λ l. onto (16 * h + l) (decode text s))

-- Percent-decoding of a path segment.
pub path_unescape : Str → Option Str
unfolding decode
path_unescape s = decode text s

unhex-hex_digit : (n : ℕ) → n < 16 → unhex (hex_digit n) ≡ some n
unfolding unhex
unhex-hex_digit n h = ground arith

decode-escaped :
    (c : ℕ) (s : Str)
    → c < 256
    → decode text (b'%' ∷ hex_digit (c / 16) ∷ hex_digit (c % 16) ∷ s) ≡ onto c (decode text s)
unfolding decode
decode-escaped c s h =
    rw (unhex-hex_digit (c / 16) (omega arith))
      (rw (unhex-hex_digit (c % 16) (omega arith)) (ap (λ n. onto n (decode text s)) (omega arith)))

decode-unreserved :
    (c : ℕ) (s : Str) → is_unreserved c ≡ true → decode text (c ∷ s) ≡ onto c (decode text s)
unfolding decode
decode-unreserved c s h = ground arith

-- A path segment survives the way to the server: decoding what `urlPathEscape` makes of any bytes
-- gives these bytes.
pub path_unescape-url_path_escape :
    (s : Str) → All (λ c. c < 256) s → path_unescape (url_path_escape s) ≡ some s
unfolding path_unescape url_path_escape
path_unescape-url_path_escape [] h = refl
path_unescape-url_path_escape (c ∷ s) (byte, rest) =
    let ih = ap (onto c) (path_unescape-url_path_escape s rest) in
    elim (Bool-cases (is_unreserved c)) [
      | inl plain ↦ rw plain (decode-unreserved c (url_path_escape s) plain ∙ ih)
      | inr other ↦ rw other (decode-escaped c (url_path_escape s) byte ∙ ih)
    ]

abbrev pub InSegment : ℕ → Type 0
InSegment c = (c ≢ b'/') × (c ≢ b'?') × (c ≢ b'#')

hex_digit-InSegment : (n : ℕ) → n < 16 → InSegment (hex_digit n)
hex_digit-InSegment n h = (ground arith, ground arith, ground arith)

unreserved-InSegment : (c : ℕ) → is_unreserved c ≡ true → InSegment c
unreserved-InSegment c h = (ground arith, ground arith, ground arith)

percent-InSegment : InSegment b'%'
percent-InSegment = (omega arith, omega arith, omega arith)

-- The escaped text is one segment: it has no slash, question mark or number sign.
pub url_path_escape-InSegment : (s : Str) → All (λ c. c < 256) s → All InSegment (url_path_escape s)
unfolding url_path_escape
url_path_escape-InSegment [] h = tt
url_path_escape-InSegment (c ∷ s) (byte, rest) =
    let ih = url_path_escape-InSegment s rest in
    elim (Bool-cases (is_unreserved c)) [
      | inl plain ↦ rw plain (unreserved-InSegment c plain, ih)
      | inr other ↦ rw other (
        percent-InSegment,
        (
          hex_digit-InSegment (c / 16) (omega arith),
          (hex_digit-InSegment (c % 16) (omega arith), ih),
        ),
      )
    ]
