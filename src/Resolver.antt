-- ===== src/Resolver.antt =====
-- services/resolver/internal: the retrieval of context from the gold codebase, domain/query.go,
-- app/resolve.go and ports/ports.go. Package uuid and strings.ToLower are a parameter; a vector and a
-- distance are opaque, since no operation here looks at them.
pub mod Queries
mod Tests
use membrane_ai.Base.{
  ℕ, zero, suc, List, Str, bytes, ◌==◌, [], trim_space, is_blank, ltb, if◌then◌else◌,
}
use membrane_ai.Base.Int.{ℤ, pos, negsuc}
use membrane_ai.Base.Context.{Context}
use membrane_ai.Errs.{GoError, nil, validation_err, internal_err, unavailable_err, Result, ok, err}

abbrev pub default_limit : ℕ
default_limit = 3

abbrev pub max_limit : ℕ
max_limit = 10

pub record Query : Type 0 where
  pub organization_id : Str
  pub language : Str
  pub diff : Str
  pub limit : ℕ

-- The `switch` of `NewQuery` on the limit.
unfoldable pub clamp_limit : ℤ → ℕ
clamp_limit (pos zero) = default_limit
clamp_limit (pos (suc n)) = if ltb max_limit (suc n) then max_limit else suc n
clamp_limit (negsuc n) = default_limit

abbrev op_query : Str
op_query = bytes "resolver.domain.NewQuery"

-- The part of `NewQuery` that follows the parsing of the id, in its canonical form.
unfoldable pub query_with : (Str → Str) → Str → Str → ℤ → Result Str → Result Query
unfolding clamp_limit
query_with lower language diff limit (err e) =
    err (validation_err op_query (bytes "organization_id must be a UUID") e)
query_with lower language diff limit (ok id) =
    let lang = lower (trim_space language) in
    if lang == []
    then err (validation_err op_query (bytes "language is required") nil)
    else if is_blank diff
    then err (validation_err op_query (bytes "diff is required") nil)
    else ok
        (record { organization_id = id; language = lang; diff = diff; limit = clamp_limit limit })

-- `NewQuery`. `parse` is `uuid.Parse` followed by `String`, and `lower` is `strings.ToLower`.
unfoldable pub new_query :
    (parse : Str → Result Str)
    → (lower : Str → Str) → (org_id language diff : Str) → ℤ
    → Result Query
unfolding query_with
new_query parse lower org_id language diff limit =
    query_with lower language diff limit (parse (trim_space org_id))

pub record GoldMatch (D : Type 0) : Type 0 where
  pub file_path : Str
  pub raw_code_content : Str
  pub architectural_context : Str
  pub cosine_distance : D

-- `Embedder` and `GoldIndex`
pub record Ports (V D E : Type 0) : Type 0 where
  pub embed : Context → Str → E → Result V × E
  pub search : Context → (org_id language : Str) → V → ℕ → E → Result (List (GoldMatch D)) × E

abbrev op_resolve : Str
op_resolve = bytes "resolver.app.ResolveContext"

abbrev searched : {A E : Type 0} → Result A × E → Result A × E
searched (err e, w) = (err (unavailable_err op_resolve (bytes "gold-index search") e), w)
searched (ok matches, w) = (ok matches, w)

module _ {V D E : Type 0} (ports : Ports V D E) where
  -- `Handle` on the answer of the embedder.
  unfoldable pub search_with : Context → Query → Result V × E → Result (List (GoldMatch D)) × E
  search_with ctx q (err e, w) = (err (internal_err op_resolve (bytes "embed query") e), w)
  search_with ctx q (ok vec, w) =
      searched (ports.search ctx q.organization_id q.language vec q.limit w)

  -- `ResolveContext.Handle`
  unfoldable pub resolve : Context → Query → E → Result (List (GoldMatch D)) × E
  unfolding search_with
  resolve ctx q w = search_with ctx q (ports.embed ctx q.diff w)
