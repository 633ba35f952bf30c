-- ===== src/Assurance/Store/Listing.antt =====
-- pkg/assurance/store.go: `List` of both stores, and their order. The entries of a directory and of a
-- map come in the order of the association list.
use mathlib.Core.List.{reverse}
use membrane_ai.Base.{Bool, ◌&&◌, not, List, [], ◌∷◌, Str, bytes, has_prefix, if◌then◌else◌}
use membrane_ai.Errs.{GoError, plain, is_err, internal_err, Result, ok, err, ◌>>=◌}
use membrane_ai.Sort.{sort, str_lt, lt_int}
use membrane_ai.Assurance.Contract.{ReleaseEvidence}
use membrane_ai.Assurance.Store.{
  Codec, MemStore, Dir, ReadResult, content, not_exist, failed, read_file, decode_from,
}

-- The order of `byCreatedDesc`: newest first, then by release.
unfoldable pub created_before : ReleaseEvidence → ReleaseEvidence → Bool
unfolding str_lt
created_before a b =
    if not (lt_int a.created_at b.created_at) && not (lt_int b.created_at a.created_at)
    then str_lt a.release_id b.release_id
    else lt_int b.created_at a.created_at

-- `byCreatedDesc`
unfoldable pub by_created_desc : List ReleaseEvidence → List ReleaseEvidence
unfolding sort created_before
by_created_desc xs = sort created_before xs

abbrev pub and_more :
    ReleaseEvidence → Result (List ReleaseEvidence) → Result (List ReleaseEvidence)
and_more ev (err e) = err e
and_more ev (ok evs) = ok (ev ∷ evs)

abbrev op_mem_list : Str
op_mem_list = bytes "assurance.MemStore.List"

abbrev op_file_list : Str
op_file_list = bytes "assurance.FileStore.List"

module _ (codec : Codec) where
  -- The loop of `MemStore.List`.
  unfoldable pub decode_all : MemStore → Result (List ReleaseEvidence)
  decode_all [] = ok []
  decode_all ((id, b) ∷ rest) =
      decode_from codec op_mem_list (codec.unmarshal b) >>= λ ev. and_more ev (decode_all rest)

  abbrev pub ordered : Result (List ReleaseEvidence) → Result (List ReleaseEvidence)
  ordered (err e) = err e
  ordered (ok evs) = ok (by_created_desc evs)

  -- `MemStore.List`
  unfoldable pub mem_list : MemStore → Result (List ReleaseEvidence)
  unfolding decode_all by_created_desc
  mem_list m = ordered (decode_all m)

  abbrev pub file_of_dir : ReadResult → Result ReleaseEvidence
  file_of_dir not_exist =
      err (internal_err op_file_list (bytes "read evidence") (plain (bytes "not exist")))
  file_of_dir (failed e) = err (internal_err op_file_list (bytes "read evidence") e)
  file_of_dir (content b) = decode_from codec op_file_list (codec.unmarshal b)

  -- `strings.HasSuffix(name, ".json")`
  abbrev pub is_json : Str → Bool
  is_json name = has_prefix (reverse name) (reverse (bytes ".json"))

  -- The loop of `FileStore.List` over the entries.
  unfoldable pub read_all : Dir → List (Str × Str) → Result (List ReleaseEvidence)
  unfolding read_file
  read_all d [] = ok []
  read_all d ((name, b) ∷ rest) =
      let later = read_all d rest in
      if not (is_json name)
      then later
      else file_of_dir (read_file name d) >>= λ ev. and_more ev later

  -- `FileStore.List`; `dir_fault` is what `os.ReadDir` answers.
  unfoldable pub file_list : GoError → Dir → Result (List ReleaseEvidence)
  unfolding read_all by_created_desc
  file_list dir_fault d =
      if is_err dir_fault
      then err (internal_err op_file_list (bytes "read store dir") dir_fault)
      else ordered (read_all d d.files)
