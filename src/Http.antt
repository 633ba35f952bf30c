-- ===== src/Http.antt =====
-- A response of package net/http, as far as the program reads it.
use membrane_ai.Base.{ℕ, [], Str, leb, length, take, if◌then◌else◌}
use membrane_ai.Base.Int.{ℤ, pos, negsuc}
use membrane_ai.Errs.{GoError, is_err, Result, ok, err}

-- The body gives `content`, and then the end of the file or, if it is not nil, `broken`.
pub record Response : Type 0 where
  pub status_code : ℕ
  pub content : Str
  pub broken : GoError

-- `io.ReadAll(io.LimitReader(resp.Body, limit))`
unfoldable pub read_limited : ℤ → Response → Result Str
read_limited (negsuc n) r = ok []
read_limited (pos n) r =
    if leb n (length r.content)
    then ok (take n r.content)
    else if is_err r.broken
    then err r.broken
    else ok r.content
