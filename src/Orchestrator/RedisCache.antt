-- ===== src/Orchestrator/RedisCache.antt =====
-- services/orchestrator/internal/adapters/rediscache/cache.go: the cache of verdicts in Redis. The
-- client of Redis and package json are parameters, and `E` is the state of the world.
pub mod Kept
use membrane_ai.Base.{Bool, true, false, Option, none, some, ◌++◌, Str, bytes, if◌then◌else◌}
use membrane_ai.Base.Int.{ℤ, pos, is_pos}
use membrane_ai.Base.Context.{Context}
use membrane_ai.Errs.{GoError, nil, is_err, unavailable_err, internal_err, Result, ok, err}
use membrane_ai.Orchestrator.Verdict.{Verdict}
use membrane_ai.Orchestrator.Saga.{VerdictCache}
use membrane_ai.Orchestrator.Memory.{zero_verdict}

abbrev pub key_prefix : Str
key_prefix = bytes "membrane:verdict:"

-- GET, where none is `redis.Nil`, and SET with a time to live; and json on a verdict.
pub record RedisLib (E : Type 0) : Type 0 where
  pub get : Context → Str → E → Result (Option Str) × E
  pub set : Context → (key value : Str) → (ttl : ℤ) → E → GoError × E
  pub marshal : Verdict → Result Str
  pub unmarshal : Str → Result Verdict

-- `New`: its time to live, 72 hours in nanoseconds if none is given.
unfoldable pub ttl_of : ℤ → ℤ
ttl_of ttl = if is_pos ttl then ttl else pos 259200000000000

abbrev op_redis : Str
op_redis = bytes "orchestrator.adapters.rediscache"

-- The entry, or a miss where it is corrupt.
abbrev pub entry : {E : Type 0} → Result Verdict → E → Verdict × Bool × GoError × E
entry (err e) w = (zero_verdict, false, nil, w)
entry (ok v) w = (v, true, nil, w)

module _ {E : Type 0} (lib : RedisLib E) where
  abbrev pub answered : Result (Option Str) × E → Verdict × Bool × GoError × E
  answered (err e, w) = (zero_verdict, false, unavailable_err op_redis (bytes "redis get") e, w)
  answered (ok none, w) = (zero_verdict, false, nil, w)
  answered (ok (some raw), w) = entry (lib.unmarshal raw) w

  -- `Cache.Get`
  unfoldable pub redis_get : Context → Str → E → Verdict × Bool × GoError × E
  redis_get ctx key w = answered (lib.get ctx (key_prefix ++ key) w)

  abbrev pub stored : GoError × E → GoError × E
  stored (er, w) =
      if is_err er then (unavailable_err op_redis (bytes "redis set") er, w) else (nil, w)

  abbrev pub set_raw : ℤ → Context → Str → E → Result Str → GoError × E
  set_raw ttl ctx key w (err e) = (internal_err op_redis (bytes "marshal verdict") e, w)
  set_raw ttl ctx key w (ok raw) = stored (lib.set ctx (key_prefix ++ key) raw (ttl_of ttl) w)

  -- `Cache.Set`
  unfoldable pub redis_set : ℤ → Context → Str → Verdict → E → GoError × E
  unfolding ttl_of
  redis_set ttl ctx key v w = set_raw ttl ctx key w (lib.marshal v)

  -- The port that the adapter fills.
  unfoldable pub redis_cache : ℤ → VerdictCache E
  unfolding redis_get redis_set
  redis_cache ttl = record { get = redis_get; set = redis_set ttl }
