-- ===== src/Gateway/Policy/Firewall.antt =====
-- What the package firewall denies and what it puts up for review.
use membrane_ai.Base.{◌≡◌, ◌≢◌, ◌↔◌, ◌⊎◌, none, List, [], ◌∷◌, Str, ==_iff, All, Any, arith}
use membrane_ai.Gateway.Typosquat.Distance.{OneEdit, IsAscii, OneEdit-differ, near_miss_iff}
use membrane_ai.Gateway.Policy.{
  deny, review, Package, Policy, names_of, Casing, first_typosquat, screen_package,
}
use membrane_ai.Gateway.Policy.Rules.{
  IsListed, HasPattern, IsUnlisted, contains_iff, first_pattern_iff,
}

-- The name is one edit away from a popular one.
abbrev pub IsTyposquat : Str → List Str → Type 0
IsTyposquat name popular = Any (OneEdit name) popular

first_typosquat_iff :
    (name : Str) (popular : List Str)
    → IsAscii name
    → All IsAscii popular
    → (first_typosquat name popular ≢ none) ↔ IsTyposquat name popular
unfolding first_typosquat
first_typosquat_iff name [] h k = ground arith
first_typosquat_iff name (p ∷ popular) h (a, k) = ground (
  arith,
  near_miss_iff name p h a,
  OneEdit-differ {a = name} {b = p},
  ==_iff name p,
  first_typosquat_iff name popular h k,
)

module _ (casing : Casing) where
  -- The package is on the ecosystem's deny list, or one edit away from a popular name.
  abbrev pub IsRefused : Policy → Package → Type 0
  IsRefused p pkg =
      IsListed casing pkg.name (names_of pkg.ecosystem p.denied_packages)
      ⊎ IsTyposquat pkg.name (names_of pkg.ecosystem p.popular_packages)

  -- For ASCII names, an install is denied exactly if the package is on the deny list or one edit
  -- away from a popular name, be it on the allow list or itself popular; it is put up for review
  -- exactly if it is not denied and has a risky part or is missing from an allow list.
  pub screen_package_iff :
      (p : Policy) (pkg : Package)
      → IsAscii pkg.name
      → All IsAscii (names_of pkg.ecosystem p.popular_packages)
      → (((screen_package casing p pkg).decision ≡ deny) ↔ IsRefused p pkg)
        × (((screen_package casing p pkg).decision ≡ review) ↔ (
            (¬ IsRefused p pkg)
            × (HasPattern casing p.risky_name_parts pkg.name
                ⊎ IsUnlisted casing pkg.name (names_of pkg.ecosystem p.allowed_packages))))
  unfolding screen_package
  screen_package_iff p pkg h k = ground (
    arith,
    contains_iff casing (names_of pkg.ecosystem p.denied_packages) pkg.name,
    contains_iff casing (names_of pkg.ecosystem p.allowed_packages) pkg.name,
    first_typosquat_iff pkg.name (names_of pkg.ecosystem p.popular_packages) h k,
    first_pattern_iff casing p.risky_name_parts pkg.name,
  )
