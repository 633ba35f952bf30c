-- ===== src/Assurance/Store/Memory.antt =====
-- The in-memory store keeps the first record of a release for all time.
use membrane_ai.Base.{
  ◌≡◌, sym, ap, ◌∙◌, Option, none, some, List, [], ◌∷◌, Str, ◌==◌, ==_iff, ==_refl, arith, inl, inr,
  Bool-cases, Option-cases,
}
use membrane_ai.Base.Maps.{lookup, lookup-insert}
use membrane_ai.Errs.{nil, is_err, Result, ok, err}
use membrane_ai.Assurance.Contract.{ReleaseEvidence, validate_evidence}
use membrane_ai.Assurance.Store.{Codec, MemStore, put_rendered, put_result, put, get_found, get}

-- The codec renders the record, and reads it back from what it renders.
abbrev pub RoundTrips : Codec → ReleaseEvidence → Type 0
RoundTrips codec ev = (b : Str) × (codec.render ev ≡ ok b) × (codec.unmarshal b ≡ ok ev)

module _ (codec : Codec) where
  put_rendered-lookup :
      (ev : ReleaseEvidence) (m : MemStore) (o : Option Str) (b : Str)
      → (put_rendered codec ev m o b).0 ≡ nil
      → lookup ev.release_id (put_rendered codec ev m o b).1 ≡ some b
  put_rendered-lookup ev m none b h =
      lookup-insert ev.release_id ev.release_id b m ∙ rw (==_refl ev.release_id)
  put_rendered-lookup ev m (some existing) b h = elim (Bool-cases (existing == b)) [
    | inl same ↦
        rw same (lookup-insert ev.release_id ev.release_id b m ∙ rw (==_refl ev.release_id))
    | inr other ↦ absurd (ground arith)
  ]

  put-rendered :
      (ev : ReleaseEvidence) (m : MemStore) (b : Str)
      → codec.render ev ≡ ok b
      → (put codec ev m).0 ≡ nil
      → put codec ev m ≡ put_rendered codec ev m (lookup ev.release_id m) b
  unfolding put
  put-rendered ev m b rendered h = elim (Bool-cases (is_err (validate_evidence ev))) [
    | inl bad ↦ absurd (ground arith)
    | inr fine ↦ rw (fine, rendered)
  ]

  -- A record that has been put without an error is got back.
  pub get-put :
      (ev : ReleaseEvidence) (m : MemStore)
      → RoundTrips codec ev
      → (put codec ev m).0 ≡ nil
      → get codec ev.release_id (put codec ev m).1 ≡ ok ev
  unfolding get
  get-put ev m (b, rendered, read) h =
      let same = put-rendered ev m b rendered h in
      let found =
        put_rendered-lookup ev m (lookup ev.release_id m) b (sym (ap (λ r. r.0) same) ∙ h) in
      rw (ap (λ r. lookup ev.release_id r.1) same ∙ found, read)

  put_rendered-keeps :
      (ev : ReleaseEvidence) (m : MemStore) (id b c : Str)
      → lookup id m ≡ some b
      → lookup id (put_rendered codec ev m (lookup ev.release_id m) c).1 ≡ some b
  put_rendered-keeps ev m id b c h = elim (Option-cases (lookup ev.release_id m)) [
    | inl new ↦
        rw new (lookup-insert ev.release_id id c m ∙ ground (arith, ==_iff ev.release_id id))
    | inr (existing, old) ↦ rw old (elim (Bool-cases (existing == c)) [
      | inl same ↦ rw same (
          lookup-insert ev.release_id id c m
          ∙ ground (arith, ==_iff ev.release_id id, ==_iff existing c))
      | inr other ↦ rw other h
    ])
  ]

  put_result-keeps :
      (ev : ReleaseEvidence) (m : MemStore) (id b : Str) (r : Result Str)
      → lookup id m ≡ some b
      → lookup id (put_result codec ev m r).1 ≡ some b
  put_result-keeps ev m id b (ok c) h = put_rendered-keeps ev m id b c h
  put_result-keeps ev m id b (err e) h = h

  put_keeps :
      (ev : ReleaseEvidence) (m : MemStore) (id b : Str)
      → lookup id m ≡ some b
      → lookup id (put codec ev m).1 ≡ some b
  unfolding put
  put_keeps ev m id b h = elim (Bool-cases (is_err (validate_evidence ev))) [
    | inl bad ↦ rw bad h
    | inr fine ↦ rw fine (put_result-keeps ev m id b (codec.render ev) h)
  ]

  -- The store after a sequence of `Put` calls, whatever each of them returned.
  pub put_all : List ReleaseEvidence → MemStore → MemStore
  put_all [] m = m
  put_all (ev ∷ evs) m = put_all evs (put codec ev m).1

  put_all_keeps :
      (evs : List ReleaseEvidence) (m : MemStore) (id b : Str)
      → lookup id m ≡ some b
      → lookup id (put_all evs m) ≡ some b
  unfolding put_all
  put_all_keeps [] m id b h = h
  put_all_keeps (ev ∷ evs) m id b h =
      put_all_keeps evs (put codec ev m).1 id b (put_keeps ev m id b h)

  -- Evidence is immutable: what `Get` once returned for a release, it returns after any sequence of
  -- further `Put` calls.
  pub get-put_all :
      (evs : List ReleaseEvidence) (m : MemStore) (id : Str) (ev : ReleaseEvidence)
      → get codec id m ≡ ok ev
      → get codec id (put_all evs m) ≡ ok ev
  unfolding get
  get-put_all evs m id ev h = elim (Option-cases (lookup id m)) [
    | inl missing ↦ absurd (cc (rw (missing, get_found) at h))
    | inr (b, found) ↦ rw (put_all_keeps evs m id b found) (rw (found, get_found) at h)
  ]
