-- ===== src/Resolver/Tests.antt =====
-- Queries at concrete inputs, with a parser that accepts every id.
use membrane_ai.Base.{◌≡◌, refl, bytes, ◌==◌, is_blank, trim_space}
use membrane_ai.Base.Int.{pos}
use membrane_ai.Errs.{ok}
use membrane_ai.Resolver.{Query, clamp_limit, query_with, new_query}
use membrane_ai.Resolver.Queries.{IsQuery, new_query-IsQuery}

run : Unit {0}
unfolding bytes ◌==◌ is_blank trim_space clamp_limit query_with new_query
run = tt

abbrev query : Query
query = record {
  organization_id = bytes "org";
  language = bytes "go";
  diff = bytes "+x";
  limit = 10;
}

many_wanted :
    new_query (λ s. ok s) (λ s. s) (bytes " org") (bytes "go ") (bytes "+x") (pos 99) ≡ ok query
unfolding run
many_wanted = refl

new_query-IsQuery_example : IsQuery (pos 99) query
new_query-IsQuery_example =
    new_query-IsQuery (λ s. ok s) (λ s. s) (bytes " org") (bytes "go ") (bytes "+x") (pos 99) query
      many_wanted
