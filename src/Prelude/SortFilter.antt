-- ===== src/Prelude/SortFilter.antt =====
-- Sorting and filtering commute, for a consistent comparator.
use mathlib.Core.Path.{◌≡◌, refl, ap, sym, ◌∙◌}
use mathlib.Core.Logic.{inl, inr}
use mathlib.Core.Bool.{Bool, true, false}
use mathlib.Core.List.{List, [], ◌∷◌}
use Prim.Native.Nat.{Ordering}
use material_email.Prelude.Tests.{Bool-cases}
use material_email.Prelude.Lists.{filter}
use material_email.Prelude.Predicates.{All, All-map, All-filter}
use material_email.Prelude.Sort.{IsComparator, not_gt, sort_insert, sort, IsSorted, sort-IsSorted}

module _ {ℓ} {A : Type ℓ} (cmp : A → A → Ordering) where
  -- An element that comes before all others goes to the front.
  sort_insert-least :
      (x : A) (ys : List A) → All (λ y. not_gt (cmp x y) ≡ true) ys → sort_insert cmp x ys ≡ x ∷ ys
  unfolding sort_insert
  sort_insert-least x [] h = refl
  sort_insert-least x (y ∷ ys) (h, hs) = rw h

module _ {ℓ} {A : Type ℓ} (cmp : A → A → Ordering) (c : IsComparator cmp) (p : A → Bool) where
  filter-sort_insert_kept :
      (x : A) (ys : List A)
      → p x ≡ true
      → IsSorted cmp ys
      → filter p (sort_insert cmp x ys) ≡ sort_insert cmp x (filter p ys)
  unfolding sort_insert
  filter-sort_insert_kept x [] kept h = rw kept
  filter-sort_insert_kept x (y ∷ ys) kept (h, hs) = elim (Bool-cases (not_gt (cmp x y))) [
    | inl e ↦
        rw (e, kept)
          (sym (
            sort_insert-least cmp x (filter p (y ∷ ys)) (
              All-filter (λ z. not_gt (cmp x z) ≡ true) p (y ∷ ys)
                (e, All-map (λ z. c.le_trans x y z e) ys h))))
    | inr e ↦ elim (Bool-cases (p y)) [
      | inl py ↦ rw (e, py, e) (ap (λ l. y ∷ l) (filter-sort_insert_kept x ys kept hs))
      | inr py ↦ rw (e, py) (filter-sort_insert_kept x ys kept hs)
    ]
  ]

  filter-sort_insert_dropped :
      (x : A) (ys : List A) → p x ≡ false → filter p (sort_insert cmp x ys) ≡ filter p ys
  unfolding sort_insert
  filter-sort_insert_dropped x [] gone = rw gone
  filter-sort_insert_dropped x (y ∷ ys) gone = elim (Bool-cases (not_gt (cmp x y))) [
    | inl e ↦ rw (e, gone)
    | inr e ↦ elim (Bool-cases (p y)) [
      | inl py ↦ rw (e, py) (ap (λ l. y ∷ l) (filter-sort_insert_dropped x ys gone))
      | inr py ↦ rw (e, py) (filter-sort_insert_dropped x ys gone)
    ]
  ]

  -- To filter a sorted array is to sort the filtered one.
  pub filter-sort : (xs : List A) → filter p (sort cmp xs) ≡ sort cmp (filter p xs)
  unfolding sort
  filter-sort [] = refl
  filter-sort (x ∷ xs) = elim (Bool-cases (p x)) [
    | inl kept ↦ rw kept (
        filter-sort_insert_kept x (sort cmp xs) kept (sort-IsSorted cmp c xs)
        ∙ ap (sort_insert cmp x) (filter-sort xs))
    | inr gone ↦ rw gone (filter-sort_insert_dropped x (sort cmp xs) gone ∙ filter-sort xs)
  ]
