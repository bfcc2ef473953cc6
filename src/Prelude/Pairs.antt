-- ===== src/Prelude/Pairs.antt =====
-- Relations between all pairs of members: what sorting, filtering, mapping and adding keep.
use mathlib.Core.Logic.{inl, inr}
use mathlib.Core.Bool.{Bool}
use mathlib.Core.List.{List, [], ◌∷◌, ◌++◌, map}
use Prim.Native.Nat.{ℕ, zero, suc, Ordering}
use material_email.Prelude.Tests.{Bool-cases}
use material_email.Prelude.Lists.{take, filter}
use material_email.Prelude.Predicates.{All, All-append, All-take, All-filter, All-map, AllPairs}
use material_email.Prelude.Sort.{not_gt, sort_insert, sort, All-sort, All-sort_insert}

module _ {ℓ κ ν} {A : Type ℓ} {B : Type κ} (P : B → Type ν) (f : A → B) where
  pub All-of_map : (xs : List A) → All (λ x. P (f x)) xs → All P (map f xs)
  All-of_map [] h = tt
  All-of_map (x ∷ xs) (h, hs) = (h, All-of_map xs hs)

module _ {ℓ κ} {A : Type ℓ} (R : A → A → Type κ) where
  pub AllPairs-filter : (p : A → Bool) (xs : List A) → AllPairs R xs → AllPairs R (filter p xs)
  AllPairs-filter p [] h = tt
  AllPairs-filter p (x ∷ xs) (h, hs) = elim (Bool-cases (p x)) [
    | inl e ↦ rw e (All-filter (R x) p xs h, AllPairs-filter p xs hs)
    | inr e ↦ rw e (AllPairs-filter p xs hs)
  ]

  pub AllPairs-take : (n : ℕ) (xs : List A) → AllPairs R xs → AllPairs R (take n xs)
  AllPairs-take zero xs h = tt
  AllPairs-take (suc n) [] h = tt
  AllPairs-take (suc n) (x ∷ xs) (h, hs) = (All-take (R x) n xs h, AllPairs-take n xs hs)

  pub AllPairs-concat :
      (xs : List A) (y : A) → AllPairs R xs → All (λ x. R x y) xs → AllPairs R (xs ++ y ∷ [])
  AllPairs-concat [] y h k = (tt, tt)
  AllPairs-concat (x ∷ xs) y (h, hs) (k, ks) =
      (All-append (R x) xs (y ∷ []) h (k, tt), AllPairs-concat xs y hs ks)

  module _ (cmp : A → A → Ordering) (symmetric : (x y : A) → R x y → R y x) where
    AllPairs-sort_insert :
        (x : A) (ys : List A) → All (R x) ys → AllPairs R ys → AllPairs R (sort_insert cmp x ys)
    unfolding sort_insert
    AllPairs-sort_insert x [] h k = (tt, tt)
    AllPairs-sort_insert x (y ∷ ys) (h, hs) (k, ks) = elim (Bool-cases (not_gt (cmp x y))) [
      | inl e ↦ rw e ((h, hs), (k, ks))
      | inr e ↦
          rw e (All-sort_insert cmp (R y) x ys (symmetric x y h) k, AllPairs-sort_insert x ys hs ks)
    ]

    -- A symmetric relation between all pairs survives sorting.
    pub AllPairs-sort : (xs : List A) → AllPairs R xs → AllPairs R (sort cmp xs)
    unfolding sort
    AllPairs-sort [] h = tt
    AllPairs-sort (x ∷ xs) (h, hs) =
        AllPairs-sort_insert x (sort cmp xs) (All-sort cmp (R x) xs h) (AllPairs-sort xs hs)

module _ {ℓ κ ν ρ} {A : Type ℓ} {B : Type κ} {R : A → A → Type ν} (S : B → B → Type ρ) where
  -- A map that sends related members to related ones.
  pub AllPairs-map :
      (f : A → B)
      → ((x y : A) → R x y → S (f x) (f y))
      → (xs : List A) → AllPairs R xs
      → AllPairs S (map f xs)
  AllPairs-map f keep [] h = tt
  AllPairs-map f keep (x ∷ xs) (h, hs) =
      (All-of_map (S (f x)) f xs (All-map (keep x) xs h), AllPairs-map f keep xs hs)

module _ {ℓ κ ν} {A : Type ℓ} (R : A → A → Type κ) (P : A → Type ν) where
  All-with : (x : A) (ys : List A) → P x → All (R x) ys → All P ys → All (λ y. R x y × P x × P y) ys
  All-with x [] p h k = tt
  All-with x (y ∷ ys) p (h, hs) (k, ks) = ((h, p, k), All-with x ys p hs ks)

  -- What holds of every member is at hand at every pair.
  pub AllPairs-with :
      (xs : List A) → AllPairs R xs → All P xs → AllPairs (λ x y. R x y × P x × P y) xs
  AllPairs-with [] h k = tt
  AllPairs-with (x ∷ xs) (h, hs) (k, ks) = (All-with x xs k h ks, AllPairs-with xs hs ks)
