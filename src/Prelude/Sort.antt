-- ===== src/Prelude/Sort.antt =====
-- `Array.prototype.sort` with a comparator: stable, so on a consistent comparator its result is
-- that of insertion sort.
use Prim.Native.Nat.{suc, Ordering}
use mathlib.Core.Path.{◌≡◌, refl, ap, ◌∙◌}
use mathlib.Core.Logic.{inl, inr}
use mathlib.Core.Bool.{Bool, true, false}
use mathlib.Core.List.{List, [], ◌∷◌, Perm}
use mathlib.Core.List.Perm
use native.Mathlib.Omega.{arith}
use material_email.Prelude.Tests.{if◌then◌else◌, Bool-cases}
use material_email.Prelude.Lists.{length}
use material_email.Prelude.Predicates.{All, All-map, AllPairs}

-- `a || b` on the results of two comparisons
abbrev pub then_compare : Ordering → Ordering → Ordering
then_compare Ordering.eq o = o
then_compare Ordering.lt o = Ordering.lt
then_compare Ordering.gt o = Ordering.gt

abbrev pub not_gt : Ordering → Bool
not_gt Ordering.gt = false
not_gt _ = true

abbrev pub flip : Ordering → Ordering
flip Ordering.lt = Ordering.gt
flip Ordering.eq = Ordering.eq
flip Ordering.gt = Ordering.lt

-- A consistent comparator, as the language asks of the argument of `sort`.
pub record IsComparator {ℓ} {A : Type ℓ} (cmp : A → A → Ordering) : Type ℓ where
  pub swapped : (x y : A) → cmp y x ≡ flip (cmp x y)
  pub le_trans :
      (x y z : A) → not_gt (cmp x y) ≡ true → not_gt (cmp y z) ≡ true → not_gt (cmp x z) ≡ true

module _ {ℓ} {A : Type ℓ} (cmp : A → A → Ordering) where
  unfoldable pub sort_insert : A → List A → List A
  sort_insert x [] = x ∷ []
  sort_insert x (y ∷ ys) = if not_gt (cmp x y) then x ∷ y ∷ ys else y ∷ sort_insert x ys

  unfoldable pub sort : List A → List A
  unfolding sort_insert
  sort [] = []
  sort (x ∷ xs) = sort_insert x (sort xs)

  abbrev pub IsSorted : List A → Type 0
  IsSorted xs = AllPairs (λ x y. not_gt (cmp x y) ≡ true) xs

  sort_insert-perm : (x : A) (ys : List A) → Perm (sort_insert x ys) (x ∷ ys)
  unfolding sort_insert
  sort_insert-perm x [] = Perm.refl _
  sort_insert-perm x (y ∷ ys) = elim (Bool-cases (not_gt (cmp x y))) [
    | inl e ↦ rw e (Perm.refl _)
    | inr e ↦ rw e (Perm.trans (Perm.cons y (sort_insert-perm x ys)) (Perm.swap x y ys))
  ]

  pub sort-perm : (xs : List A) → Perm (sort xs) xs
  unfolding sort
  sort-perm [] = Perm.refl _
  sort-perm (x ∷ xs) = Perm.trans (sort_insert-perm x (sort xs)) (Perm.cons x (sort-perm xs))

  length-sort_insert : (x : A) (ys : List A) → length (sort_insert x ys) ≡ suc (length ys)
  unfolding sort_insert
  length-sort_insert x [] = refl
  length-sort_insert x (y ∷ ys) = ground (arith, length-sort_insert x ys)

  pub length-sort : (xs : List A) → length (sort xs) ≡ length xs
  unfolding sort
  length-sort [] = refl
  length-sort (x ∷ xs) = omega (arith, length-sort_insert x (sort xs), length-sort xs)

  -- A sorted array is left as it is.
  pub sort_of_IsSorted : (xs : List A) → IsSorted xs → sort xs ≡ xs
  unfolding sort
  sort_of_IsSorted [] h = refl
  sort_of_IsSorted (x ∷ []) h = refl
  sort_of_IsSorted (x ∷ y ∷ ys) (h, hs) = ap (sort_insert x) (sort_of_IsSorted (y ∷ ys) hs) ∙ rw h.0

module _ {ℓ κ} {A : Type ℓ} (cmp : A → A → Ordering) (P : A → Type κ) where
  pub All-sort_insert : (x : A) (ys : List A) → P x → All P ys → All P (sort_insert cmp x ys)
  unfolding sort_insert
  All-sort_insert x [] h hs = (h, tt)
  All-sort_insert x (y ∷ ys) h (k, ks) = elim (Bool-cases (not_gt (cmp x y))) [
    | inl e ↦ rw e (h, (k, ks))
    | inr e ↦ rw e (k, All-sort_insert x ys h ks)
  ]

  pub All-sort : (xs : List A) → All P xs → All P (sort cmp xs)
  unfolding sort
  All-sort [] h = tt
  All-sort (x ∷ xs) (h, hs) = All-sort_insert x (sort cmp xs) h (All-sort xs hs)

module _ {ℓ} {A : Type ℓ} (cmp : A → A → Ordering) (c : IsComparator cmp) where
  flipped_not_gt : (x y : A) → not_gt (cmp x y) ≡ false → not_gt (cmp y x) ≡ true
  flipped_not_gt x y h = ground (arith, c.swapped x y)

  sort_insert-IsSorted :
      (x : A) (ys : List A) → IsSorted cmp ys → IsSorted cmp (sort_insert cmp x ys)
  unfolding sort_insert
  sort_insert-IsSorted x [] h = (tt, tt)
  sort_insert-IsSorted x (y ∷ ys) (h, hs) = elim (Bool-cases (not_gt (cmp x y))) [
    | inl e ↦ rw e ((e, All-map (λ z. c.le_trans x y z e) ys h), (h, hs))
    | inr e ↦ rw e (
      All-sort_insert cmp (λ z. not_gt (cmp y z) ≡ true) x ys (flipped_not_gt x y e) h,
      sort_insert-IsSorted x ys hs,
    )
  ]

  pub sort-IsSorted : (xs : List A) → IsSorted cmp (sort cmp xs)
  unfolding sort
  sort-IsSorted [] = tt
  sort-IsSorted (x ∷ xs) = sort_insert-IsSorted x (sort cmp xs) (sort-IsSorted xs)
