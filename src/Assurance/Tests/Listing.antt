-- ===== src/Assurance/Tests/Listing.antt =====
-- The theorem on the list of releases at a concrete store of two records.
use membrane_ai.Base.{◌≡◌, refl, List, [], ◌∷◌, bytes, has_prefix}
use membrane_ai.Base.Maps.{lookup}
use membrane_ai.Errs.{nil, plain, err}
use membrane_ai.Sort.{sort}
use membrane_ai.Assurance.Contract.{ReleaseEvidence}
use membrane_ai.Assurance.Store.{Dir, read_file}
use membrane_ai.Assurance.Store.Listing.{created_before, by_created_desc, read_all, file_list}
use membrane_ai.Assurance.Api.{Server, releases, in_project, list_releases, auth, list, serve}
use membrane_ai.Assurance.Api.Listed.{IsListing, serve_list-IsListing}
use membrane_ai.Assurance.Tests.{run, codec, evidence}

listing : Unit {0}
unfolding run has_prefix lookup sort created_before by_created_desc read_all file_list in_project
    list_releases auth serve read_file
listing = tt

abbrev directory : Dir
directory = record {
  files = (bytes "b.json", bytes "b") ∷ (bytes "README", []) ∷ (bytes "a.json", bytes "a") ∷ [];
  read_fault = λ n. nil;
  write_fault = λ n. nil;
}

abbrev server : Server
server = record {
  list = file_list codec nil directory;
  get = λ id. err (plain (bytes "unused"));
  api_key = bytes "k";
}

abbrev both : List ReleaseEvidence
both = evidence (bytes "a") ∷ evidence (bytes "b") ∷ []

both_listed : serve codec.render server (bytes "k") (list (bytes "proj-demo")) ≡ releases both
unfolding listing
both_listed = refl

serve_list-IsListing_example : IsListing codec directory server (bytes "k") (bytes "proj-demo") both
serve_list-IsListing_example =
    serve_list-IsListing codec.render codec nil directory server (bytes "k") (bytes "proj-demo")
      both refl both_listed
