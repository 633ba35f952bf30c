-- ===== src/Orchestrator/Verdict/CacheKey.antt =====
-- `CacheKey` tells two changes apart as far as the digest does.
use Prim.Native.Nat.{◌/◌, ◌%◌}
use membrane_ai.Base.{ℕ, ◌<◌, ◌≡◌, ◌≢◌, [], ◌∷◌, ◌++◌, Str, All, arith}
use membrane_ai.Orchestrator.Verdict.{hex_digit, hex_encode, cache_key}

abbrev pub IsByte : ℕ → Type 0
IsByte b = b < 256

hex_digit_injective : (c d : ℕ) → c < 16 → d < 16 → hex_digit c ≡ hex_digit d → c ≡ d
hex_digit_injective c d h k e = ground arith

hex_byte_injective :
    (a b : ℕ)
    → a < 256
    → b < 256
    → hex_digit (a / 16) ≡ hex_digit (b / 16)
    → hex_digit (a % 16) ≡ hex_digit (b % 16)
    → a ≡ b
hex_byte_injective a b h k p q =
    let high = hex_digit_injective (a / 16) (b / 16) (omega arith) (omega arith) p in
    let low = hex_digit_injective (a % 16) (b % 16) (omega arith) (omega arith) q in omega arith

hex_encode_injective :
    (s t : Str) → All IsByte s → All IsByte t → hex_encode s ≡ hex_encode t → s ≡ t
unfolding hex_encode
hex_encode_injective [] [] h k e = cc
hex_encode_injective [] (b ∷ t) h k e = cc
hex_encode_injective (a ∷ s) [] h k e = cc
hex_encode_injective (a ∷ s) (b ∷ t) (ha, h) (hb, k) e =
    ground (arith, hex_byte_injective a b ha hb, hex_encode_injective s t h k)

-- The ruleset version ends at the first NUL byte.
nul_splits :
    (r r' d d' : Str)
    → All (λ b. b ≢ 0) r
    → All (λ b. b ≢ 0) r'
    → r ++ 0 ∷ d ≡ r' ++ 0 ∷ d'
    → (d ≡ d') × (r ≡ r')
nul_splits [] [] d d' h k e = (cc, cc)
nul_splits [] (b ∷ r') d d' h (n, k) e = absurd (n (cc))
nul_splits (a ∷ r) [] d d' (n, h) k e = absurd (n (cc))
nul_splits (a ∷ r) (b ∷ r') d d' (_, h) (_, k) e =
    let (same_d, same_r) = nul_splits r r' d d' h k (cc) in (same_d, cc)

-- Two changes share a cache key only if they have the same diff and the same ruleset version,
-- where the digest has no collision on the two messages and the versions hold no NUL byte.
pub cache_key_injective :
    (blake3 : Str → Str) (diff diff' version version' : Str)
    → All IsByte (blake3 (version ++ 0 ∷ diff))
    → All IsByte (blake3 (version' ++ 0 ∷ diff'))
    → (blake3 (version ++ 0 ∷ diff) ≡ blake3 (version' ++ 0 ∷ diff')
        → version ++ 0 ∷ diff ≡ version' ++ 0 ∷ diff')
    → All (λ b. b ≢ 0) version
    → All (λ b. b ≢ 0) version'
    → cache_key blake3 diff version ≡ cache_key blake3 diff' version'
    → (diff ≡ diff') × (version ≡ version')
unfolding cache_key
cache_key_injective blake3 diff diff' version version' h k collision_free n n' e =
    nul_splits version version' diff diff' n n' (collision_free (hex_encode_injective _ _ h k e))
