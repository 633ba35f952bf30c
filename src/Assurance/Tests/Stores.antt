-- ===== src/Assurance/Tests/Stores.antt =====
-- The theorems on the evidence stores at concrete releases.
use membrane_ai.Base.{◌≡◌, refl, [], ◌∷◌, bytes}
use membrane_ai.Errs.{nil, plain, ok}
use membrane_ai.Assurance.Store.{Dir, MemStore, get, file_put, file_get}
use membrane_ai.Assurance.Store.Memory.{get-put_all, put_all}
use membrane_ai.Assurance.Store.Files.{file_get-file_put}
use membrane_ai.Assurance.Tests.{run, evidence, codec}

abbrev with_first : MemStore
with_first = (bytes "rel-1", bytes "rel-1") ∷ []

get-put_all_example :
    get codec (bytes "rel-1") (put_all codec (evidence (bytes "rel-2") ∷ []) with_first)
    ≡ ok (evidence (bytes "rel-1"))
unfolding run
get-put_all_example =
    get-put_all codec (evidence (bytes "rel-2") ∷ []) with_first (bytes "rel-1")
      (evidence (bytes "rel-1")) refl

abbrev empty_dir : Dir
empty_dir = record { files = []; read_fault = λ name. nil; write_fault = λ name. nil }

-- The evidence of release a/1 is returned for release a_1.
file_get-file_put_example :
    ((file_put codec (evidence (bytes "a/1")) empty_dir).0 ≡ nil)
    × (file_get codec (bytes "a_1") (file_put codec (evidence (bytes "a/1")) empty_dir).1
        ≡ ok (evidence (bytes "a/1")))
unfolding run
file_get-file_put_example =
    file_get-file_put codec (evidence (bytes "a/1")) (bytes "a_1") empty_dir
      (bytes "a/1", refl, refl) refl refl refl refl refl

abbrev with_file : Dir
with_file = record empty_dir { files = (bytes "rel-1.json", bytes "old") ∷ [] }

abbrev unreadable : Dir
unreadable = record with_file { read_fault = λ name. plain (bytes "permission denied") }
