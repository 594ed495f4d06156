-- ===== src/Prelude/Sorting.antt =====
-- Python's `sort` as a stable insertion sort by a test "may stand before".
use Prim.Native.String.{String}
use mathlib.Core.Path.{◌≡◌, refl}
use native.Mathlib.Omega.{arith}
use mathlib.Core.Bool.{false, Bool, true, ◌&&◌, ◌||◌}
use mathlib.Core.Logic.{inl, inr}
use mathlib.Core.List.{List, [], ◌∷◌, Perm}
use mathlib.Core.List.Perm
use stepstitch.Prelude.Tests.{if◌then◌else◌, Bool-cases, str_eq}
use stepstitch.Prelude.Lists.{all, contains, length, sum_of, count_if}
use Prim.Native.Nat.{suc, ℕ, ◌+◌}

module _ {ℓ} {A : Type ℓ} (before : A → A → Bool) where
  unfoldable pub insert_by : A → List A → List A
  insert_by x [] = x ∷ []
  insert_by x (y ∷ ys) = let rest = insert_by x ys in if before x y then x ∷ y ∷ ys else y ∷ rest

  unfoldable pub sort_by : List A → List A
  unfolding insert_by
  sort_by [] = []
  sort_by (x ∷ xs) = insert_by x (sort_by xs)

  -- Every element may stand before all that follow it.
  unfoldable pub is_sorted : List A → Bool
  is_sorted [] = true
  is_sorted (x ∷ xs) = all (before x) xs && is_sorted xs

module _ {ℓ} {A : Type ℓ} (before : A → A → Bool) where
  insert_by-perm : (x : A) (ys : List A) → Perm (insert_by before x ys) (x ∷ ys)
  unfolding insert_by
  insert_by-perm x [] = Perm.refl (x ∷ [])
  insert_by-perm x (y ∷ ys) = elim (Bool-cases (before x y)) [
    | inl p ↦ rw p (Perm.refl (x ∷ y ∷ ys))
    | inr q ↦ rw q (Perm.trans (Perm.cons y (insert_by-perm x ys)) (Perm.swap x y ys))
  ]

  pub sort_by-perm : (xs : List A) → Perm (sort_by before xs) xs
  unfolding sort_by
  sort_by-perm [] = Perm.refl []
  sort_by-perm (x ∷ xs) =
      Perm.trans (insert_by-perm x (sort_by before xs)) (Perm.cons x (sort_by-perm xs))

module _ (before : String → String → Bool) where
  contains-insert_by :
      (k x : String) (ys : List String)
      → contains k (insert_by before x ys) ≡ (str_eq x k || contains k ys)
  unfolding insert_by
  contains-insert_by k x [] = refl
  contains-insert_by k x (y ∷ ys) = ground (arith, contains-insert_by k x ys)

  pub contains-sort_by :
      (k : String) (xs : List String) → contains k (sort_by before xs) ≡ contains k xs
  unfolding sort_by
  contains-sort_by k [] = refl
  contains-sort_by k (x ∷ xs) =
      ground (arith, contains-insert_by k x (sort_by before xs), contains-sort_by k xs)

module _ {ℓ} {A : Type ℓ} (before : A → A → Bool) where
  pub all-insert_by :
      (p : A → Bool) (x : A) (ys : List A) → all p (insert_by before x ys) ≡ (p x && all p ys)
  unfolding insert_by
  all-insert_by p x [] = refl
  all-insert_by p x (y ∷ ys) = ground (arith, all-insert_by p x ys)

  pub all-sort_by : (p : A → Bool) (xs : List A) → all p (sort_by before xs) ≡ all p xs
  unfolding sort_by
  all-sort_by p [] = refl
  all-sort_by p (x ∷ xs) = ground (arith, all-insert_by p x (sort_by before xs), all-sort_by p xs)

module _ {ℓ} {A : Type ℓ} (before : A → A → Bool)
    (total : (x y : A) → before x y ≡ false → before y x ≡ true)
    (trans : (x y z : A) → before x y ≡ true → before y z ≡ true → before x z ≡ true) where
  all-before :
      (x y : A) (zs : List A)
      → before x y ≡ true
      → all (before y) zs ≡ true
      → all (before x) zs ≡ true
  all-before x y [] h a = refl
  all-before x y (z ∷ zs) h a = ground (arith, trans x y z h, all-before x y zs h)

  insert_by-is_sorted :
      (x : A) (ys : List A)
      → is_sorted before ys ≡ true
      → is_sorted before (insert_by before x ys) ≡ true
  unfolding insert_by is_sorted
  insert_by-is_sorted x [] h = refl
  insert_by-is_sorted x (y ∷ ys) h = ground (
    arith,
    all-before x y ys,
    total x y,
    all-insert_by before (before y) x ys,
    insert_by-is_sorted x ys,
  )

  pub sort_by-is_sorted : (xs : List A) → is_sorted before (sort_by before xs) ≡ true
  unfolding sort_by is_sorted
  sort_by-is_sorted [] = refl
  sort_by-is_sorted (x ∷ xs) = insert_by-is_sorted x (sort_by before xs) (sort_by-is_sorted xs)

module _ {ℓ} {A : Type ℓ} (before : A → A → Bool) where
  length-insert_by : (x : A) (ys : List A) → length (insert_by before x ys) ≡ suc (length ys)
  unfolding insert_by
  length-insert_by x [] = refl
  length-insert_by x (y ∷ ys) = ground (arith, length-insert_by x ys)

  pub length-sort_by : (xs : List A) → length (sort_by before xs) ≡ length xs
  unfolding sort_by
  length-sort_by [] = refl
  length-sort_by (x ∷ xs) = omega (arith, length-insert_by x (sort_by before xs), length-sort_by xs)

module _ {ℓ} {A : Type ℓ} (before : A → A → Bool) where
  sum_of-insert_by :
      (f : A → ℕ) (x : A) (ys : List A) → sum_of f (insert_by before x ys) ≡ f x + sum_of f ys
  unfolding insert_by
  sum_of-insert_by f x [] = refl
  sum_of-insert_by f x (y ∷ ys) = ground (arith, sum_of-insert_by f x ys)

  pub sum_of-sort_by : (f : A → ℕ) (xs : List A) → sum_of f (sort_by before xs) ≡ sum_of f xs
  unfolding sort_by
  sum_of-sort_by f [] = refl
  sum_of-sort_by f (x ∷ xs) =
      omega (arith, sum_of-insert_by f x (sort_by before xs), sum_of-sort_by f xs)

  count_if-insert_by :
      (p : A → Bool) (x : A) (ys : List A)
      → count_if p (insert_by before x ys) ≡ (if p x then suc (count_if p ys) else count_if p ys)
  unfolding insert_by
  count_if-insert_by p x [] = refl
  count_if-insert_by p x (y ∷ ys) = ground (arith, count_if-insert_by p x ys)

  pub count_if-sort_by :
      (p : A → Bool) (xs : List A) → count_if p (sort_by before xs) ≡ count_if p xs
  unfolding sort_by
  count_if-sort_by p [] = refl
  count_if-sort_by p (x ∷ xs) =
      ground (arith, count_if-insert_by p x (sort_by before xs), count_if-sort_by p xs)
