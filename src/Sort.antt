-- ===== src/Sort.antt =====
-- `sort.Slice` and `sort.SliceStable` by insertion, and the order of Go strings. Where two items are
-- equal in the order, `sort.Slice` leaves open which comes first, and this sort keeps their order.
use membrane_ai.Base.Int.{ℤ, pos, negsuc}
use membrane_ai.Base.{
  ℕ, zero, suc, ◌+◌, ◌≤◌, ◌≡◌, refl, Bool, true, false, ◌&&◌, ◌||◌, List, [], ◌∷◌, ◌++◌, Str, All,
  take, ltb, eqb, if◌then◌else◌, arith, Bool-cases, inl, inr,
}

-- `s < t` on strings
unfoldable pub str_lt : Str → Str → Bool
str_lt [] [] = false
str_lt [] (b ∷ t) = true
str_lt (a ∷ s) [] = false
str_lt (a ∷ s) (b ∷ t) = ltb a b || eqb a b && str_lt s t

abbrev pub lt_int : ℤ → ℤ → Bool
lt_int (pos a) (pos b) = ltb a b
lt_int (pos a) (negsuc b) = false
lt_int (negsuc a) (pos b) = true
lt_int (negsuc a) (negsuc b) = ltb b a

module _ {ℓ} {A : Type ℓ} where
  abbrev pub drop : ℕ → List A → List A
  drop zero xs = xs
  drop (suc n) [] = []
  drop (suc n) (x ∷ xs) = drop n xs

  -- The sum of a measure of the items.
  abbrev pub sum_of : (A → ℕ) → List A → ℕ
  sum_of g [] = 0
  sum_of g (x ∷ xs) = g x + sum_of g xs

  pub sum_of-append : (g : A → ℕ) (xs ys : List A) → sum_of g (xs ++ ys) ≡ sum_of g xs + sum_of g ys
  sum_of-append g [] ys = omega arith
  sum_of-append g (x ∷ xs) ys = omega (arith, sum_of-append g xs ys)

  pub sum_of-split :
      (g : A → ℕ) (n : ℕ) (xs : List A) → sum_of g (take n xs) + sum_of g (drop n xs) ≡ sum_of g xs
  sum_of-split g zero xs = omega arith
  sum_of-split g (suc n) [] = omega arith
  sum_of-split g (suc n) (x ∷ xs) = omega (arith, sum_of-split g n xs)

module _ {ℓ} {A : Type ℓ} (less : A → A → Bool) where
  -- After the items that are not greater.
  unfoldable pub insert_sorted : A → List A → List A
  insert_sorted x [] = x ∷ []
  insert_sorted x (y ∷ ys) =
      let later = y ∷ insert_sorted x ys in if less x y then x ∷ y ∷ ys else later

  unfoldable pub sort_onto : List A → List A → List A
  unfolding insert_sorted
  sort_onto sorted [] = sorted
  sort_onto sorted (x ∷ xs) = sort_onto (insert_sorted x sorted) xs

  unfoldable pub sort : List A → List A
  unfolding sort_onto
  sort xs = sort_onto [] xs

  sum_of-insert_sorted :
      (g : A → ℕ) (x : A) (ys : List A) → sum_of g (insert_sorted x ys) ≡ g x + sum_of g ys
  unfolding insert_sorted
  sum_of-insert_sorted g x [] = refl
  sum_of-insert_sorted g x (y ∷ ys) = ground (arith, sum_of-insert_sorted g x ys)

  sum_of-sort_onto :
      (g : A → ℕ) (sorted xs : List A)
      → sum_of g (sort_onto sorted xs) ≡ sum_of g sorted + sum_of g xs
  unfolding sort_onto
  sum_of-sort_onto g sorted [] = omega arith
  sum_of-sort_onto g sorted (x ∷ xs) =
      omega (arith, sum_of-sort_onto g (insert_sorted x sorted) xs, sum_of-insert_sorted g x sorted)

  -- Sorting keeps every item, as often.
  pub sum_of-sort : (g : A → ℕ) (xs : List A) → sum_of g (sort xs) ≡ sum_of g xs
  unfolding sort
  sum_of-sort g xs = omega (arith, sum_of-sort_onto g [] xs)

module _ {ℓ} {A : Type ℓ} (rank : A → ℕ) where
  -- Ranks that never rise.
  abbrev pub Falls : List A → Type 0
  Falls [] = Unit
  Falls (x ∷ xs) = All (λ y. rank y ≤ rank x) xs × Falls xs

  All-insert_sorted :
      (less : A → A → Bool) (P : A → Type 0) (x : A) (ys : List A)
      → P x
      → All P ys
      → All P (insert_sorted less x ys)
  unfolding insert_sorted
  All-insert_sorted less P x [] p h = (p, tt)
  All-insert_sorted less P x (y ∷ ys) p (q, h) =
      let later = All-insert_sorted less P x ys p h in
      elim (Bool-cases (less x y)) [ inl lt ↦ rw lt (p, (q, h)) | inr ge ↦ rw ge (q, later) ]

  All-lower : (n m : ℕ) (ys : List A) → n ≤ m → All (λ y. rank y ≤ n) ys → All (λ y. rank y ≤ m) ys
  All-lower n m [] le h = tt
  All-lower n m (y ∷ ys) le (q, h) = (omega (arith, le, q), All-lower n m ys le h)

  -- The order goes by falling rank first.
  pub record IsByRank (less : A → A → Bool) : Type ℓ where
    pub before : (x y : A) → less x y ≡ true → rank y ≤ rank x
    pub after : (x y : A) → less x y ≡ false → rank x ≤ rank y

  module _ (less : A → A → Bool) (by_rank : IsByRank less) where
    insert_sorted-Falls : (x : A) (ys : List A) → Falls ys → Falls (insert_sorted less x ys)
    unfolding insert_sorted
    insert_sorted-Falls x [] h = (tt, tt)
    insert_sorted-Falls x (y ∷ ys) (low, h) = elim (Bool-cases (less x y)) [
      | inl lt ↦
          let le = by_rank.before x y lt in
          rw lt ((le, All-lower (rank y) (rank x) ys le low), (low, h))
      | inr ge ↦ rw ge (
        All-insert_sorted less (λ z. rank z ≤ rank y) x ys (by_rank.after x y ge) low,
        insert_sorted-Falls x ys h,
      )
    ]

    sort_onto-Falls : (sorted xs : List A) → Falls sorted → Falls (sort_onto less sorted xs)
    unfolding sort_onto
    sort_onto-Falls sorted [] h = h
    sort_onto-Falls sorted (x ∷ xs) h =
        sort_onto-Falls (insert_sorted less x sorted) xs (insert_sorted-Falls x sorted h)

    pub sort-Falls : (xs : List A) → Falls (sort less xs)
    unfolding sort
    sort-Falls xs = sort_onto-Falls [] xs tt

  All-drop :
      (n : ℕ) (m : ℕ) (xs : List A) → All (λ y. rank y ≤ m) xs → All (λ y. rank y ≤ m) (drop n xs)
  All-drop zero m xs h = h
  All-drop (suc n) m [] h = tt
  All-drop (suc n) m (x ∷ xs) (p, h) = All-drop n m xs h

  -- What is cut off a list of falling ranks ranks no higher than what is kept.
  pub cut_low :
      (n : ℕ) (xs : List A)
      → Falls xs
      → All (λ kept. All (λ cut. rank cut ≤ rank kept) (drop n xs)) (take n xs)
  cut_low zero xs h = tt
  cut_low (suc n) [] h = tt
  cut_low (suc n) (x ∷ xs) (low, h) = (All-drop n (rank x) xs low, cut_low n xs h)

module _ {ℓ} {A : Type ℓ} (R : A → A → Type 0) where
  -- Each item is in the relation to all that follow.
  abbrev pub IsOrdered : List A → Type 0
  IsOrdered [] = Unit
  IsOrdered (x ∷ xs) = All (R x) xs × IsOrdered xs

  -- A transitive relation that an order decides.
  pub record IsDecidedBy (less : A → A → Bool) : Type ℓ where
    pub before : (x y : A) → less x y ≡ true → R x y
    pub after : (x y : A) → less x y ≡ false → R y x
    pub trans : (x y z : A) → R x y → R y z → R x z

  All-trans :
      (trans : (x y z : A) → R x y → R y z → R x z) (x y : A) (zs : List A)
      → R x y
      → All (R y) zs
      → All (R x) zs
  All-trans trans x y [] h hs = tt
  All-trans trans x y (z ∷ zs) h (h', hs) = (trans x y z h h', All-trans trans x y zs h hs)

  module _ (less : A → A → Bool) (d : IsDecidedBy less) where
    insert_sorted-All :
        (x y : A) (ys : List A) → R y x → All (R y) ys → All (R y) (insert_sorted less x ys)
    unfolding insert_sorted
    insert_sorted-All x y [] h hs = (h, tt)
    insert_sorted-All x y (z ∷ zs) h (h', hs) = elim (Bool-cases (less x z)) [
      | inl first ↦ rw first (h, (h', hs))
      | inr later ↦ rw later (h', insert_sorted-All x y zs h hs)
    ]

    insert_sorted-IsOrdered :
        (x : A) (ys : List A) → IsOrdered ys → IsOrdered (insert_sorted less x ys)
    unfolding insert_sorted
    insert_sorted-IsOrdered x [] h = (tt, tt)
    insert_sorted-IsOrdered x (y ∷ ys) (ah, h) = elim (Bool-cases (less x y)) [
      | inl first ↦
          let r = d.before x y first in rw first ((r, All-trans d.trans x y ys r ah), (ah, h))
      | inr later ↦
          rw later (insert_sorted-All x y ys (d.after x y later) ah, insert_sorted-IsOrdered x ys h)
    ]

    sort_onto-IsOrdered :
        (sorted xs : List A) → IsOrdered sorted → IsOrdered (sort_onto less sorted xs)
    unfolding sort_onto
    sort_onto-IsOrdered sorted [] h = h
    sort_onto-IsOrdered sorted (x ∷ xs) h =
        sort_onto-IsOrdered (insert_sorted less x sorted) xs (insert_sorted-IsOrdered x sorted h)

    pub sort-IsOrdered : (xs : List A) → IsOrdered (sort less xs)
    unfolding sort
    sort-IsOrdered xs = sort_onto-IsOrdered [] xs tt
