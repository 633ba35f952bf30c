-- ===== src/Orchestrator/RedisCache/Kept.antt =====
-- What the cache in Redis gives back.
use membrane_ai.Base.{◌≡◌, ap, ◌∙◌, sym, true, Option, some, ◌++◌, Str, arith, inl, inr, Bool-cases}
use membrane_ai.Base.Int.{ℤ}
use membrane_ai.Base.Context.{Context}
use membrane_ai.Errs.{GoError, nil, is_err, Result, ok, Result-cases}
use membrane_ai.Orchestrator.Verdict.{Verdict}
use membrane_ai.Orchestrator.RedisCache.{
  RedisLib, key_prefix, ttl_of, entry, answered, redis_get, stored, redis_set,
}

-- Redis gives back what it has accepted, while it has not expired, and json reads what it renders.
pub record IsFaithful {E : Type 0} (lib : RedisLib E) : Type 0 where
  pub kept :
      (ctx ctx' : Context) (key value : Str) (ttl : ℤ) (w : E)
      → (lib.set ctx key value ttl w).0 ≡ nil
      → (lib.get ctx' key (lib.set ctx key value ttl w).1).0 ≡ ok (some value)
  pub read : (v : Verdict) (raw : Str) → lib.marshal v ≡ ok raw → lib.unmarshal raw ≡ ok v

module _ {E : Type 0} (lib : RedisLib E) (h : IsFaithful lib) where
  answered-some :
      (v : Verdict) (raw : Str) (a : Result (Option Str) × E)
      → lib.unmarshal raw ≡ ok v
      → a.0 ≡ ok (some raw)
      → answered lib a ≡ (v, true, nil, a.1)
  answered-some v raw (a, w) read found =
      ap (λ x. answered lib (x, w)) found ∙ ap (λ x. entry x w) read

  -- A verdict that `Set` has stored without an error is what a later `Get` finds, under any context
  -- and time to live.
  pub redis_get-redis_set :
      (ttl : ℤ) (ctx ctx' : Context) (key : Str) (v : Verdict) (w w' : E)
      → redis_set lib ttl ctx key v w ≡ (nil, w')
      → (w'' : E) × (redis_get lib ctx' key w' ≡ (v, true, nil, w''))
  unfolding redis_set redis_get
  redis_get-redis_set ttl ctx ctx' key v w w' done = elim (Result-cases (lib.marshal v)) [
    | inl (raw, rendered) ↦
        let put = lib.set ctx (key_prefix ++ key) raw (ttl_of ttl) w in
        let (sent, same) = stored-nil put.0 put.1 w' (rw rendered at done) in
        let found =
          ap (λ x. (lib.get ctx' (key_prefix ++ key) x).0) (sym same)
          ∙ h.kept ctx ctx' (key_prefix ++ key) raw (ttl_of ttl) w sent in
        (
          (lib.get ctx' (key_prefix ++ key) w').1,
          answered-some v raw (lib.get ctx' (key_prefix ++ key) w') (h.read v raw rendered) found,
        )
    | inr (e, refused) ↦ absurd (cc (rw refused at done))
  ]
    where
      stored-nil :
          (er : GoError) (w1 w2 : E) → stored lib (er, w1) ≡ (nil, w2) → (er ≡ nil) × (w1 ≡ w2)
      stored-nil er w1 w2 s = elim (Bool-cases (is_err er)) [
        | inl failed ↦ absurd (ground (arith, s, failed))
        | inr fine ↦ (ground (arith, fine), ap (λ (x : GoError × E). x.1) (rw fine at s))
      ]
