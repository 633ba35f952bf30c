-- ===== src/Base/Maps.antt =====
-- A Go `map[string]V` as an association list.
use mathlib.Core.Path.{◌≡◌, refl}
use mathlib.Core.Option.{Option, none, some}
use mathlib.Core.List.{List, [], ◌∷◌}
use native.Mathlib.Omega.{arith}
use membrane_ai.Base.Tests.{if◌then◌else◌}
use membrane_ai.Base.Text.{Str, ◌==◌, ==_iff}

module _ {ℓ} {V : Type ℓ} where
  -- `m[k]`
  unfoldable pub lookup : Str → List (Str × V) → Option V
  unfolding ◌==◌
  lookup key [] = none
  lookup key (entry ∷ rest) = if entry.0 == key then some entry.1 else lookup key rest

  -- `delete(m, k)`; every entry of the key goes.
  unfoldable pub delete : Str → List (Str × V) → List (Str × V)
  unfolding ◌==◌
  delete key [] = []
  delete key (entry ∷ rest) =
      let kept = delete key rest in if entry.0 == key then kept else entry ∷ kept

  -- `m[k] = v`
  unfoldable pub insert : Str → V → List (Str × V) → List (Str × V)
  unfolding ◌==◌
  insert key value [] = (key, value) ∷ []
  insert key value (entry ∷ rest) =
      let later = entry ∷ insert key value rest in
      if entry.0 == key then (key, value) ∷ rest else later

  pub lookup-delete :
      (gone asked : Str) (m : List (Str × V))
      → lookup asked (delete gone m) ≡ (if gone == asked then none else lookup asked m)
  unfolding lookup delete
  lookup-delete gone asked [] = ground arith
  lookup-delete gone asked ((key, value) ∷ rest) =
      ground
        (arith, lookup-delete gone asked rest, ==_iff key gone, ==_iff key asked, ==_iff gone asked)

  pub lookup-insert :
      (set asked : Str) (value : V) (m : List (Str × V))
      → lookup asked (insert set value m) ≡ (if set == asked then some value else lookup asked m)
  unfolding lookup insert
  lookup-insert set asked value [] = refl
  lookup-insert set asked value ((key, old) ∷ rest) = ground (
    arith,
    lookup-insert set asked value rest,
    ==_iff key set,
    ==_iff key asked,
    ==_iff set asked,
  )
