-- ===== src/Resolver/Queries.antt =====
-- What a query of the resolver asks for.
use mathlib.Core.Path.{subst}
use membrane_ai.Base.{
  ℕ, suc, ◌≤◌, ◌≡◌, ◌≢◌, false, [], Str, is_blank, trim_space, ==_apart, sym, ap, ◌∙◌, ◌==◌, arith,
  inl, inr, Bool-cases,
}
use membrane_ai.Base.Int.{ℤ, pos, negsuc}
use membrane_ai.Errs.{Result, ok, err}
use membrane_ai.Resolver.{Query, clamp_limit, query_with, new_query, max_limit}

-- At least one match and at most ten.
pub clamp_limit_bounds : (limit : ℤ) → (1 ≤ clamp_limit limit) × (clamp_limit limit ≤ max_limit)
unfolding clamp_limit
clamp_limit_bounds (pos ℕ.zero) = (omega arith, omega arith)
clamp_limit_bounds (pos (suc n)) = ground arith
clamp_limit_bounds (negsuc n) = (omega arith, omega arith)

clamp_limit_kept : (n : ℕ) → 1 ≤ n → n ≤ max_limit → clamp_limit (pos n) ≡ n
unfolding clamp_limit
clamp_limit_kept ℕ.zero h k = absurd (omega (arith, h))
clamp_limit_kept (suc n) h k = ground (arith, h, k)

-- A query that `NewQuery` accepts.
pub record IsQuery (limit : ℤ) (q : Query) : Type 0 where
  pub language : q.language ≢ []
  pub diff : is_blank q.diff ≡ false
  pub bounded : (1 ≤ q.limit) × (q.limit ≤ max_limit)
  pub kept : (n : ℕ) → limit ≡ pos n → 1 ≤ n → n ≤ max_limit → q.limit ≡ n

query_with-IsQuery :
    (lower : Str → Str) (language diff : Str) (limit : ℤ) (id : Result Str) (q : Query)
    → query_with lower language diff limit id ≡ ok q
    → IsQuery limit q
unfolding query_with
query_with-IsQuery lower language diff limit (err e) q h = absurd (cc h)
query_with-IsQuery lower language diff limit (ok id) q h =
    let lang = lower (trim_space language) in
    elim (Bool-cases (lang == [])) [
      | inl none ↦ absurd (cc (rw none at h))
      | inr some ↦ elim (Bool-cases (is_blank diff)) [
        | inl blank ↦ absurd (cc (rw blank at (rw some at h)))
        | inr filled ↦
            let made : ok (record {
              organization_id = id;
              language = lang;
              diff = diff;
              limit = clamp_limit limit;
            })
                ≡ ok q =
              rw filled at (rw some at h) in
            let same : q.limit ≡ clamp_limit limit = cc made in
            record {
              language = λ e. ==_apart lang [] some (cc (made, e));
              diff = cc (made, filled);
              bounded =
                  subst (λ n. (1 ≤ n) × (n ≤ max_limit)) (sym same) (clamp_limit_bounds limit);
              kept = λ n e lo hi. same ∙ ap clamp_limit e ∙ clamp_limit_kept n lo hi;
            }
      ]
    ]

-- Every query that `NewQuery` accepts has a language and a diff, and asks for one to ten matches: for
-- as many as were requested, where this is in the range.
pub new_query-IsQuery :
    (parse : Str → Result Str) (lower : Str → Str) (org_id language diff : Str) (limit : ℤ)
    (q : Query)
    → new_query parse lower org_id language diff limit ≡ ok q
    → IsQuery limit q
unfolding new_query
new_query-IsQuery parse lower org_id language diff limit q h =
    query_with-IsQuery lower language diff limit (parse (trim_space org_id)) q h
