-- ===== src/Assurance/Api/Listed.antt =====
-- What the list of releases shows, and to whom.
use mathlib.Core.Path.{subst}
use membrane_ai.Base.{
  ℕ, ap, if◌then◌else◌, ◌≡◌, ◌≢◌, ◌⊎◌, inl, inr, refl, sym, ◌∙◌, true, false, ◌||◌, List, [], ◌∷◌,
  Str, ◌==◌, ==_iff, All, arith, Bool-cases,
}
use membrane_ai.Base.Int.{ℤ}
use membrane_ai.Errs.{GoError, is_err, Result, ok, err, bind_ok}
use membrane_ai.Sort.{lt_int, IsOrdered, IsDecidedBy, sort-IsOrdered, sort, sum_of, sum_of-sort}
use membrane_ai.Assurance.Contract.{ReleaseEvidence}
use membrane_ai.Assurance.Store.{Codec, Dir, read_file}
use membrane_ai.Assurance.Store.Listing.{
  created_before, by_created_desc, read_all, ordered, file_list, is_json, file_of_dir, and_more,
}
use membrane_ai.Assurance.Api.{
  Server, Answer, releases, fail, in_project, listed, list_releases, auth, list, serve,
}

-- The one is not older than the other.
abbrev pub NotOlder : ReleaseEvidence → ReleaseEvidence → Type 0
NotOlder a b = lt_int a.created_at b.created_at ≡ false

lt_int_asym : (a b : ℤ) → lt_int a b ≡ true → lt_int b a ≡ false
lt_int_asym a b h = ground (arith, h)

not_lt_trans : (a b c : ℤ) → lt_int a b ≡ false → lt_int b c ≡ false → lt_int a c ≡ false
not_lt_trans a b c h h' = ground (arith, h, h')

created_before-IsDecidedBy : IsDecidedBy NotOlder created_before
unfolding created_before
created_before-IsDecidedBy = record {
  before = λ x y h. ground (arith, h, lt_int_asym y.created_at x.created_at);
  after = λ x y h. ground (arith, h, lt_int_asym x.created_at y.created_at);
  trans = λ x y z h h'. not_lt_trans x.created_at y.created_at z.created_at h h';
}

by_created_desc-IsOrdered : (xs : List ReleaseEvidence) → IsOrdered NotOlder (by_created_desc xs)
unfolding by_created_desc
by_created_desc-IsOrdered xs = sort-IsOrdered NotOlder created_before created_before-IsDecidedBy xs

sorted_eq :
    (evs all : List ReleaseEvidence)
    → ◌≡◌ {A = Result (List ReleaseEvidence)} (ok (by_created_desc evs)) (ok all)
    → by_created_desc evs ≡ all
sorted_eq evs all h = cc h

shown_inj : (xs ys : List ReleaseEvidence) → ◌≡◌ {A = Answer} (releases xs) (releases ys) → ys ≡ xs
shown_inj xs ys h = cc h

fail_shows_none : (e : GoError) (out : List ReleaseEvidence) → fail e ≢ releases out
unfolding fail
fail_shows_none e out h = ground (arith, h)

-- The records of the project, or all records where the query names none.
abbrev pub IsOf : Str → ReleaseEvidence → Type 0
IsOf project ev = (project ≡ []) ⊎ (ev.project_id ≡ project)

in_project-kept :
    (P : ReleaseEvidence → Type 0) (project : Str) (evs : List ReleaseEvidence)
    → All P evs
    → All P (in_project project evs)
unfolding in_project
in_project-kept P project [] h = tt
in_project-kept P project (ev ∷ rest) (p, h) =
    elim (Bool-cases (project == [] || ev.project_id == project)) [
      | inl shown ↦ rw shown (p, in_project-kept P project rest h)
      | inr hidden ↦ rw hidden (in_project-kept P project rest h)
    ]

in_project-IsOrdered :
    (project : Str) (evs : List ReleaseEvidence)
    → IsOrdered NotOlder evs
    → IsOrdered NotOlder (in_project project evs)
unfolding in_project
in_project-IsOrdered project [] h = tt
in_project-IsOrdered project (ev ∷ rest) (p, h) =
    elim (Bool-cases (project == [] || ev.project_id == project)) [
      | inl shown ↦
          rw shown
            (in_project-kept (NotOlder ev) project rest p, in_project-IsOrdered project rest h)
      | inr hidden ↦ rw hidden (in_project-IsOrdered project rest h)
    ]

in_project-IsOf :
    (project : Str) (evs : List ReleaseEvidence) → All (IsOf project) (in_project project evs)
unfolding in_project
in_project-IsOf project [] = tt
in_project-IsOf project (ev ∷ rest) =
    elim (Bool-cases (project == [] || ev.project_id == project)) [
      | inl shown ↦ rw shown (
        ground (arith, shown, ==_iff project [], ==_iff ev.project_id project),
        in_project-IsOf project rest,
      )
      | inr hidden ↦ rw hidden (in_project-IsOf project rest)
    ]

-- The measure, on the records of the project only.
abbrev pub of_project_only : Str → (ReleaseEvidence → ℕ) → ReleaseEvidence → ℕ
of_project_only project g ev = if project == [] || ev.project_id == project then g ev else 0

sum_of-in_project :
    (project : Str) (g : ReleaseEvidence → ℕ) (evs : List ReleaseEvidence)
    → sum_of g (in_project project evs) ≡ sum_of (of_project_only project g) evs
unfolding in_project
sum_of-in_project project g [] = refl
sum_of-in_project project g (ev ∷ rest) = ground (arith, sum_of-in_project project g rest)

-- The records that the JSON files of a directory hold, in the order of the entries.
pub data IsReading (codec : Codec) (d : Dir)
    : List (Str × Str) → List ReleaseEvidence → Type 0 where
  none : IsReading codec d [] []
  other_file :
      (name b : Str) {rest : List (Str × Str)} {evs : List ReleaseEvidence}
      → is_json codec name ≡ false
      → IsReading codec d rest evs
      → IsReading codec d ((name, b) ∷ rest) evs
  evidence_file :
      (name b : Str) (ev : ReleaseEvidence) {rest : List (Str × Str)} {evs : List ReleaseEvidence}
      → is_json codec name ≡ true
      → file_of_dir codec (read_file name d) ≡ ok ev
      → IsReading codec d rest evs
      → IsReading codec d ((name, b) ∷ rest) (ev ∷ evs)

and_more-ok :
    (ev : ReleaseEvidence) (r : Result (List ReleaseEvidence)) (evs : List ReleaseEvidence)
    → and_more ev r ≡ ok evs
    → (more : List ReleaseEvidence) × (r ≡ ok more) × (ev ∷ more ≡ evs)
and_more-ok ev (err e) evs h = absurd (cc h)
and_more-ok ev (ok more) evs h = (more, refl, cc h)

read_all-IsReading :
    (codec : Codec) (d : Dir) (files : List (Str × Str)) (evs : List ReleaseEvidence)
    → read_all codec d files ≡ ok evs
    → IsReading codec d files evs
unfolding read_all
read_all-IsReading codec d [] evs h =
    let e : [] ≡ evs = cc h in subst (IsReading codec d []) e IsReading.none
read_all-IsReading codec d ((name, b) ∷ rest) evs h = elim (Bool-cases (is_json codec name)) [
  | inl json ↦
      let (ev, found, h') =
        bind_ok (file_of_dir codec (read_file name d)) (λ ev. and_more ev (read_all codec d rest))
          (rw json at h) in
      let (more, later, same) = and_more-ok ev (read_all codec d rest) evs h' in
      subst (IsReading codec d ((name, b) ∷ rest)) same
        (IsReading.evidence_file name b ev json found (read_all-IsReading codec d rest more later))
  | inr other ↦
      IsReading.other_file name b other (read_all-IsReading codec d rest evs (rw other at h))
]

ordered-ok :
    (codec : Codec) (r : Result (List ReleaseEvidence)) (all : List ReleaseEvidence)
    → ordered codec r ≡ ok all
    → (evs : List ReleaseEvidence) × (r ≡ ok evs) × (by_created_desc evs ≡ all)
ordered-ok codec (err e) all h = absurd (cc h)
ordered-ok codec (ok evs) all h = (evs, refl, sorted_eq evs all h)

file_list-ok :
    (codec : Codec) (dir_fault : GoError) (d : Dir) (all : List ReleaseEvidence)
    → file_list codec dir_fault d ≡ ok all
    → (evs : List ReleaseEvidence) × IsReading codec d d.files evs × (by_created_desc evs ≡ all)
unfolding file_list
file_list-ok codec dir_fault d all h = elim (Bool-cases (is_err dir_fault)) [
  | inl bad ↦ absurd (cc (rw bad at h))
  | inr fine ↦
      let (evs, found, same) = ordered-ok codec (read_all codec d d.files) all (rw fine at h) in
      (evs, read_all-IsReading codec d d.files evs found, same)
]

-- What a list of releases that was shown is. Equal sums under every measure say that it holds the
-- same records, each as often.
pub record IsListing (codec : Codec) (d : Dir) (s : Server) (key project : Str)
    (out : List ReleaseEvidence) : Type 0 where
  pub authorized : key ≡ s.api_key
  pub stored : List ReleaseEvidence
  pub reading : IsReading codec d d.files stored
  pub complete :
      (g : ReleaseEvidence → ℕ) → sum_of g out ≡ sum_of (of_project_only project g) stored
  pub of_project : All (IsOf project) out
  pub newest_first : IsOrdered NotOlder out

listed-ok :
    (project : Str) (r : Result (List ReleaseEvidence)) (out : List ReleaseEvidence)
    → listed project r ≡ releases out
    → (all : List ReleaseEvidence) × (r ≡ ok all) × (out ≡ in_project project all)
listed-ok project (err e) out h = absurd (fail_shows_none e out h)
listed-ok project (ok all) out h = (all, refl, shown_inj _ out h)

sorted_complete :
    (project : Str) (g : ReleaseEvidence → ℕ) (evs : List ReleaseEvidence)
    → sum_of g (in_project project (by_created_desc evs)) ≡ sum_of (of_project_only project g) evs
unfolding by_created_desc
sorted_complete project g evs =
    sum_of-in_project project g (sort created_before evs)
    ∙ sum_of-sort created_before (of_project_only project g) evs

-- A list of releases is shown over a file store only to a request that carries the key. It holds
-- exactly the records that the JSON files of the store decode to and that are of the project that the
-- query names, or all of them where it names none, each as often as stored, newest first.
pub serve_list-IsListing :
    (render : ReleaseEvidence → Result Str) (codec : Codec) (dir_fault : GoError) (d : Dir)
    (s : Server) (key project : Str) (out : List ReleaseEvidence)
    → s.list ≡ file_list codec dir_fault d
    → serve render s key (list project) ≡ releases out
    → IsListing codec d s key project out
unfolding serve auth list_releases
serve_list-IsListing render codec dir_fault d s key project out store h =
    elim (Bool-cases (key == s.api_key)) [
      | inl good ↦
          let (all, found, same) = listed-ok project s.list out (rw good at h) in
          let (evs, reading, sorted) = file_list-ok codec dir_fault d all (sym store ∙ found) in
          let shown : in_project project (by_created_desc evs) ≡ out =
            ap (in_project project) sorted ∙ sym same in
          record {
            authorized = (==_iff key s.api_key).0 good;
            stored = evs;
            reading = reading;
            complete = λ g. ap (sum_of g) (sym shown) ∙ sorted_complete project g evs;
            of_project =
                subst (All (IsOf project)) shown (in_project-IsOf project (by_created_desc evs));
            newest_first =
                subst (IsOrdered NotOlder) shown
                  (in_project-IsOrdered project _ (by_created_desc-IsOrdered evs));
          }
      | inr bad ↦ absurd (cc (rw bad at h))
    ]
