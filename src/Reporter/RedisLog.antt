-- ===== src/Reporter/RedisLog.antt =====
-- services/reporter/internal/adapters/redislog/redislog.go: the delivery log in Redis, whose client is
-- a parameter on the state `E` of the world.
use membrane_ai.Base.{◌≡◌, refl, ap, ◌∙◌, Bool, false, ◌∷◌, ◌++◌, Str, bytes, if◌then◌else◌}
use membrane_ai.Base.Int.{ℤ, pos, is_pos}
use membrane_ai.Base.Context.{Context}
use membrane_ai.Errs.{GoError, nil, is_err, unavailable_err, Result, ok, err}
use membrane_ai.Reporter.Dispatch.{DeliveryLog}

-- SETNX with a time to live: whether the key was created; and DEL.
pub record RedisLib (E : Type 0) : Type 0 where
  pub set_nx : Context → (key value : Str) → (ttl : ℤ) → E → Result Bool × E
  pub del : Context → (key : Str) → E → GoError × E

-- `New` and `NewWithClient`: 72 hours in nanoseconds if no time to live is given.
unfoldable pub ttl_of : ℤ → ℤ
ttl_of ttl = if is_pos ttl then ttl else pos 259200000000000

-- `key`
abbrev pub redis_key : Str → Str → Str
redis_key submission_id notifier =
    bytes "membrane:reporter:delivered:" ++ submission_id ++ 0 ∷ notifier

abbrev op_log : Str
op_log = bytes "reporter.adapters.redislog"

abbrev created : {E : Type 0} → Result Bool × E → Bool × GoError × E
created (err e, w) = (false, unavailable_err op_log (bytes "redis setnx") e, w)
created (ok b, w) = (b, nil, w)

module _ {E : Type 0} (lib : RedisLib E) (ttl : ℤ) where
  -- `Log.MarkIfNew`
  unfoldable pub redis_mark : Context → Str → Str → E → Bool × GoError × E
  unfolding ttl_of
  redis_mark ctx submission_id notifier w =
      created (lib.set_nx ctx (redis_key submission_id notifier) (bytes "1") (ttl_of ttl) w)

  -- `Log.Unmark`
  unfoldable pub redis_unmark : Context → Str → Str → E → GoError × E
  redis_unmark ctx submission_id notifier w =
      let (er, w') = lib.del ctx (redis_key submission_id notifier) w in
      (if is_err er then unavailable_err op_log (bytes "redis del") er else nil, w')

  -- The port that the log fills.
  unfoldable pub redis_log : DeliveryLog E
  unfolding redis_mark redis_unmark
  redis_log = record { mark_if_new = redis_mark; unmark = redis_unmark }

  -- Redis creates no key that is there.
  abbrev IsExclusive : Type 0
  IsExclusive =
      (ctx ctx' : Context) (key value value' : Str) (t t' : ℤ) (w : E) (b : Bool)
      → (lib.set_nx ctx key value t w).0 ≡ ok b
      → (lib.set_nx ctx' key value' t' (lib.set_nx ctx key value t w).1).0 ≡ ok false

  created-mark : (a : Result Bool × E) → a.0 ≡ ok false → (created a).0 ≡ false
  created-mark (r, w) h = ap (λ x. (created (x, w)).0) h

  -- A delivery is marked as new once: right after a mark that Redis has answered, the next one
  -- finds it.
  pub mark_once :
      (ctx ctx' : Context) (submission_id notifier : Str) (w : E) (b : Bool)
      → IsExclusive
      → (lib.set_nx ctx (redis_key submission_id notifier) (bytes "1") (ttl_of ttl) w).0 ≡ ok b
      → (redis_mark ctx' submission_id notifier (redis_mark ctx submission_id notifier w).2).0
        ≡ false
  unfolding redis_mark
  mark_once ctx ctx' submission_id notifier w b exclusive h =
      let key = redis_key submission_id notifier in
      let first = lib.set_nx ctx key (bytes "1") (ttl_of ttl) w in
      created-mark (lib.set_nx ctx' key (bytes "1") (ttl_of ttl) (created first).2) (
        ap (λ v. (lib.set_nx ctx' key (bytes "1") (ttl_of ttl) v).0) (same first)
        ∙ exclusive ctx ctx' key (bytes "1") (bytes "1") (ttl_of ttl) (ttl_of ttl) w b h)
    where
      same : (a : Result Bool × E) → (created a).2 ≡ a.1
      same (err e, w) = refl
      same (ok x, w) = refl
