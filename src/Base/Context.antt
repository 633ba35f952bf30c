-- ===== src/Base/Context.antt =====
-- Package context, as far as the program derives one context from another.
use membrane_ai.Base.Int.{ℤ}

-- How a `context.Context` was made from the one that the caller gave. Durations are nanoseconds.
pub data Context : Type 0 where
  background : Context
  with_timeout : Context → (duration : ℤ) → Context
  without_cancel : Context → Context
