-- ===== src/Assurance/Store/Files.antt =====
-- The file store: what it keeps where the file system works, and where it gives up a record.
use membrane_ai.Base.{
  ◌≡◌, ◌≢◌, sym, ap, ◌∙◌, true, none, some, Str, ==_iff, ==_refl, arith, inl, inr, Option-cases,
  Bool-cases,
}
use membrane_ai.Base.Maps.{lookup, insert, lookup-insert}
use membrane_ai.Errs.{nil, is_err, ok, kind_of, conflict}
use membrane_ai.Assurance.Contract.{ReleaseEvidence, validate_evidence}
use membrane_ai.Assurance.Store.{
  Codec, Dir, ReadResult, read_file, write_file, safe_file_name, file_of, write_new, file_put_read,
  file_put, file_get,
}
use membrane_ai.Assurance.Store.Memory.{RoundTrips}

module _ (codec : Codec) where
  file_put-rendered :
      (ev : ReleaseEvidence) (d : Dir) (b : Str)
      → validate_evidence ev ≡ nil
      → codec.render ev ≡ ok b
      → file_put codec ev d ≡ file_put_read codec ev b (read_file (file_of ev.release_id) d) d
  unfolding file_put
  file_put-rendered ev d b valid rendered = rw (valid, rendered)

  write_new-lookup :
      (name b : Str) (d : Dir)
      → d.write_fault name ≡ nil
      → write_new codec name b d ≡ (nil, record d { files = insert name b d.files })
  unfolding write_file
  write_new-lookup name b d works = rw works

  -- Where the file can be read and written and there is none yet, `Put` stores the record and `Get`
  -- returns it, for every release id whose sanitised name is that of the record: so also for
  -- another release than the record's.
  pub file_get-file_put :
      (ev : ReleaseEvidence) (id : Str) (d : Dir)
      → RoundTrips codec ev
      → validate_evidence ev ≡ nil
      → d.read_fault (file_of ev.release_id) ≡ nil
      → d.write_fault (file_of ev.release_id) ≡ nil
      → lookup (file_of ev.release_id) d.files ≡ none
      → safe_file_name id ≡ safe_file_name ev.release_id
      → ((file_put codec ev d).0 ≡ nil) × (file_get codec id (file_put codec ev d).1 ≡ ok ev)
  unfolding file_get
  file_get-file_put ev id d (b, rendered, read) valid readable writable new same =
      let name = file_of ev.release_id in
      let missing : read_file name d ≡ ReadResult.not_exist =
        unfold read_file in rw (readable, new) in
      let done : file_put codec ev d ≡ (nil, record d { files = insert name b d.files }) =
        file_put-rendered ev d b valid rendered
        ∙ ap (λ r. file_put_read codec ev b r d) missing
        ∙ write_new-lookup name b d writable in
      let stored : read_file name (record d { files = insert name b d.files })
          ≡ ReadResult.content b =
        unfold read_file in rw (readable, lookup-insert name name b d.files, ==_refl name) in
      (ap (λ r. r.0) done, rw (same, done, stored, read))

  -- Where an existing file cannot be read but can be written, `Put` replaces what it holds and
  -- reports no error, whatever that was.
  pub file_put_unreadable :
      (ev : ReleaseEvidence) (d : Dir) (existing b : Str)
      → validate_evidence ev ≡ nil
      → codec.render ev ≡ ok b
      → lookup (file_of ev.release_id) d.files ≡ some existing
      → is_err (d.read_fault (file_of ev.release_id)) ≡ true
      → d.write_fault (file_of ev.release_id) ≡ nil
      → ((file_put codec ev d).0 ≡ nil)
        × (lookup (file_of ev.release_id) (file_put codec ev d).1.files ≡ some b)
  file_put_unreadable ev d existing b valid rendered found unreadable writable =
      let name = file_of ev.release_id in
      let fails : read_file name d ≡ ReadResult.failed (d.read_fault name) =
        unfold read_file in rw unreadable in
      let done : file_put codec ev d ≡ (nil, record d { files = insert name b d.files }) =
        file_put-rendered ev d b valid rendered
        ∙ ap (λ r. file_put_read codec ev b r d) fails
        ∙ write_new-lookup name b d writable in
      (
        ap (λ r. r.0) done,
        ap (λ r. lookup name r.1.files) done
            ∙ lookup-insert name name b d.files
            ∙ rw (==_refl name),
      )

  file_put_read-conflict :
      (ev : ReleaseEvidence) (d : Dir) (existing b : Str)
      → existing ≢ b
      → kind_of (file_put_read codec ev b (ReadResult.content existing) d).0 ≡ conflict
  unfolding kind_of
  file_put_read-conflict ev d existing b differs = ground (arith, ==_iff existing b)

  -- Where an existing file can be read, `Put` never replaces what it holds: the directory stays
  -- as it is, and a record that differs is refused as a conflict.
  pub file_put_keeps :
      (ev : ReleaseEvidence) (d : Dir) (existing b : Str)
      → validate_evidence ev ≡ nil
      → codec.render ev ≡ ok b
      → lookup (file_of ev.release_id) d.files ≡ some existing
      → d.read_fault (file_of ev.release_id) ≡ nil
      → ((file_put codec ev d).1 ≡ d) × (existing ≢ b → kind_of (file_put codec ev d).0 ≡ conflict)
  file_put_keeps ev d existing b valid rendered found readable =
      let name = file_of ev.release_id in
      let there : read_file name d ≡ ReadResult.content existing =
        unfold read_file in rw (readable, found) in
      let done =
        file_put-rendered ev d b valid rendered ∙ ap (λ r. file_put_read codec ev b r d) there in
      (
        ap (λ r. r.1) done,
        λ differs. ap (λ r. kind_of r.0) done ∙ file_put_read-conflict ev d existing b differs,
      )

  kept :
      (ev : ReleaseEvidence) (existing b : Str) (d : Dir)
      → (file_put_read codec ev b (ReadResult.content existing) d).0 ≡ nil
      → existing ≡ b
  kept ev existing b d h = ground (arith, h, ==_iff existing b)

  -- What a write that reports no error leaves in the file.
  file_put_read-lookup :
      (ev : ReleaseEvidence) (b : Str) (d : Dir)
      → d.read_fault (file_of ev.release_id) ≡ nil
      → d.write_fault (file_of ev.release_id) ≡ nil
      → (file_put_read codec ev b (read_file (file_of ev.release_id) d) d).0 ≡ nil
      → read_file
          (file_of ev.release_id)
          (file_put_read codec ev b (read_file (file_of ev.release_id) d) d).1
        ≡ ReadResult.content b
  unfolding read_file
  file_put_read-lookup ev b d readable writable h =
      let name = file_of ev.release_id in
      elim (Option-cases (lookup name d.files)) [
        | inl missing ↦
            let absent : read_file name d ≡ ReadResult.not_exist = rw (readable, missing) in
            let stored : read_file name (record d { files = insert name b d.files })
                ≡ ReadResult.content b =
              rw (readable, lookup-insert name name b d.files, ==_refl name) in
            ap (λ r. read_file name (file_put_read codec ev b r d).1) absent
            ∙ ap (λ r. read_file name r.1) (write_new-lookup name b d writable)
            ∙ stored
        | inr (existing, found) ↦
            let read : read_file name d ≡ ReadResult.content existing = rw (readable, found) in
            let same : existing ≡ b =
              kept ev existing b d (ap (λ r. (file_put_read codec ev b r d).0) (sym read) ∙ h) in
            ap (λ r. read_file name (file_put_read codec ev b r d).1) read
            ∙ read
            ∙ ap ReadResult.content same
      ]

  -- Where the file can be read and written, a record that has been put without an error is got back.
  pub file_get-put :
      (ev : ReleaseEvidence) (d : Dir)
      → RoundTrips codec ev
      → d.read_fault (file_of ev.release_id) ≡ nil
      → d.write_fault (file_of ev.release_id) ≡ nil
      → (file_put codec ev d).0 ≡ nil
      → file_get codec ev.release_id (file_put codec ev d).1 ≡ ok ev
  unfolding file_put file_get
  file_get-put ev d (b, rendered, read) readable writable h =
      elim (Bool-cases (is_err (validate_evidence ev))) [
        | inl bad ↦ absurd (ground (arith, h, bad))
        | inr fine ↦ rw (
          fine,
          rendered,
          file_put_read-lookup ev b d readable writable (rw (fine, rendered) at h),
          read,
        )
      ]
