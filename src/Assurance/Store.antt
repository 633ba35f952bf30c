-- ===== src/Assurance/Store.antt =====
-- pkg/assurance/store.go: the in-memory and the file store of release evidence. The JSON codec
-- and the faults of the file system are parameters; the locks are left out, since each operation
-- runs under its lock from end to end.
pub mod Memory
pub mod Files
pub mod Listing
use membrane_ai.Base.{
  Bool, true, false, ◌&&◌, ◌||◌, not, Option, none, some, List, [], ◌∷◌, ◌++◌, map, ℕ, Str, bytes,
  ◌==◌, is_blank, leb, eqb, if◌then◌else◌,
}
use membrane_ai.Base.Maps.{lookup, insert}
use membrane_ai.Errs.{
  GoError, nil, is_err, validation_err, conflict_err, not_found_err, internal_err, Result, ok, err,
  ◌>>=◌,
}
use membrane_ai.Assurance.Contract.{ReleaseEvidence, validate_evidence}

-- `RenderJSON`, and the `json.Unmarshal` of `decodeEvidence`: encoding/json on the evidence record.
pub record Codec : Type 0 where
  pub render : ReleaseEvidence → Result Str
  pub unmarshal : Str → Result ReleaseEvidence

-- `MemStore.data`
abbrev pub MemStore : Type 0
MemStore = List (Str × Str)

abbrev stored_already : Str → Str
stored_already release_id =
    bytes "release evidence is immutable: "
    ++ release_id
    ++ bytes " already stored with different content"

-- `safeFileName`
abbrev safe1 : ℕ → ℕ
safe1 c =
    if leb b'a' c && leb c b'z'
      || leb b'A' c && leb c b'Z'
      || leb b'0' c && leb c b'9'
      || eqb c b'-'
      || eqb c b'_'
      || eqb c b'.'
    then c
    else b'_'

abbrev nonempty_or : Str → Str → Str
nonempty_or [] d = d
nonempty_or (c ∷ s) d = c ∷ s

unfoldable pub safe_file_name : Str → Str
safe_file_name s = nonempty_or (map safe1 s) (bytes "release")

-- The store's directory: its files by name, and the faults of reading and of writing one.
pub record Dir : Type 0 where
  pub files : List (Str × Str)
  pub read_fault : Str → GoError
  pub write_fault : Str → GoError

pub data ReadResult : Type 0 where
  content : Str → ReadResult
  not_exist : ReadResult
  failed : GoError → ReadResult

abbrev read_found : Option Str → ReadResult
read_found none = not_exist
read_found (some b) = content b

-- `os.ReadFile`
unfoldable pub read_file : Str → Dir → ReadResult
read_file name d =
    if is_err (d.read_fault name)
    then failed (d.read_fault name)
    else read_found (lookup name d.files)

-- `os.WriteFile`, which replaces what is there.
unfoldable pub write_file : Str → Str → Dir → GoError × Dir
write_file name b d =
    if is_err (d.write_fault name)
    then (d.write_fault name, d)
    else (nil, record d { files = insert name b d.files })

-- The name of the file of a release, below the store's directory.
abbrev pub file_of : Str → Str
file_of release_id = safe_file_name release_id ++ bytes ".json"

module _ (codec : Codec) where
  -- `decodeEvidence`
  abbrev pub decode_from : Str → Result ReleaseEvidence → Result ReleaseEvidence
  decode_from op (ok ev) = ok ev
  decode_from op (err e) = err (internal_err op (bytes "decode stored evidence") e)

  abbrev op_put : Str
  op_put = bytes "assurance.MemStore.Put"

  -- `MemStore.Put`, on the rendered record.
  abbrev put_rendered : ReleaseEvidence → MemStore → Option Str → Str → GoError × MemStore
  put_rendered ev m none b = (nil, insert ev.release_id b m)
  put_rendered ev m (some existing) b =
      if not (existing == b)
      then (conflict_err op_put (stored_already ev.release_id) nil, m)
      else (nil, insert ev.release_id b m)

  abbrev put_result : ReleaseEvidence → MemStore → Result Str → GoError × MemStore
  put_result ev m (err e) = (e, m)
  put_result ev m (ok b) = put_rendered ev m (lookup ev.release_id m) b

  unfoldable pub put : ReleaseEvidence → MemStore → GoError × MemStore
  put ev m =
      if is_err (validate_evidence ev)
      then (
        validation_err op_put (bytes "refusing to store invalid evidence") (validate_evidence ev),
        m,
      )
      else put_result ev m (codec.render ev)

  abbrev get_found : Str → Option Str → Result ReleaseEvidence
  get_found release_id none = err (
      not_found_err (bytes "assurance.MemStore.Get")
        (bytes "no evidence for release " ++ release_id) nil)
  get_found release_id (some b) = decode_from (bytes "assurance.MemStore.Get") (codec.unmarshal b)

  -- `MemStore.Get`
  unfoldable pub get : Str → MemStore → Result ReleaseEvidence
  get release_id m = get_found release_id (lookup release_id m)

  abbrev op_file_put : Str
  op_file_put = bytes "assurance.FileStore.Put"

  abbrev write_new : Str → Str → Dir → GoError × Dir
  write_new name b d =
      let (er, d') = write_file name b d in
      (if is_err er then internal_err op_file_put (bytes "write evidence") er else nil, d')

  -- `FileStore.Put`, on the rendered record and on what is read at its path: any error of the read
  -- leads to the write.
  abbrev file_put_read : ReleaseEvidence → Str → ReadResult → Dir → GoError × Dir
  file_put_read ev b (content existing) d = (
    if not (existing == b)
        then conflict_err op_file_put (stored_already ev.release_id) nil
        else nil,
    d,
  )
  file_put_read ev b not_exist d = write_new (file_of ev.release_id) b d
  file_put_read ev b (failed e) d = write_new (file_of ev.release_id) b d

  abbrev file_put_result : ReleaseEvidence → Dir → Result Str → GoError × Dir
  file_put_result ev d (err e) = (e, d)
  file_put_result ev d (ok b) = file_put_read ev b (read_file (file_of ev.release_id) d) d

  unfoldable pub file_put : ReleaseEvidence → Dir → GoError × Dir
  file_put ev d =
      if is_err (validate_evidence ev)
      then (
        validation_err op_file_put (bytes "refusing to store invalid evidence")
            (validate_evidence ev),
        d,
      )
      else file_put_result ev d (codec.render ev)

  abbrev op_file_get : Str
  op_file_get = bytes "assurance.FileStore.Get"

  abbrev file_get_read : Str → ReadResult → Result ReleaseEvidence
  file_get_read release_id not_exist =
      err (not_found_err op_file_get (bytes "no evidence for release " ++ release_id) nil)
  file_get_read release_id (failed e) = err (internal_err op_file_get (bytes "read evidence") e)
  file_get_read release_id (content b) = decode_from op_file_get (codec.unmarshal b)

  -- `FileStore.Get`
  unfoldable pub file_get : Str → Dir → Result ReleaseEvidence
  file_get release_id d = file_get_read release_id (read_file (file_of release_id) d)
