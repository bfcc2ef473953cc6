-- ===== src/Prelude/Predicates.antt =====
-- Predicates on lists by recursion: every member, pairs of members, and sortedness.
use Prim.Native.Nat.{ℕ, zero, suc}
use mathlib.Core.Path.{◌≡◌, refl}
use mathlib.Core.Logic.{inl, inr}
use mathlib.Core.Bool.{Bool, true}
use mathlib.Core.List.{List, [], ◌∷◌, ◌++◌}
use material_email.Prelude.Tests.{Bool-cases}
use material_email.Prelude.Lists.{take, filter}

module _ {ℓ κ} {A : Type ℓ} (P : A → Type κ) where
  abbrev pub All : List A → Type κ
  All [] = Unit
  All (x ∷ xs) = P x × All xs

  pub All-append : (xs ys : List A) → All xs → All ys → All (xs ++ ys)
  All-append [] ys hx hy = hy
  All-append (x ∷ xs) ys (h, hx) hy = (h, All-append xs ys hx hy)

  pub All-take : (n : ℕ) (xs : List A) → All xs → All (take n xs)
  All-take zero xs h = tt
  All-take (suc n) [] h = tt
  All-take (suc n) (x ∷ xs) (h, hs) = (h, All-take n xs hs)

  -- A filter keeps what holds of all, and its test holds of what it keeps.
  pub All-filter : (p : A → Bool) (xs : List A) → All xs → All (filter p xs)
  All-filter p [] h = tt
  All-filter p (x ∷ xs) (h, hs) = elim (Bool-cases (p x)) [
    | inl e ↦ rw e (h, All-filter p xs hs)
    | inr e ↦ rw e (All-filter p xs hs)
  ]

module _ {ℓ} {A : Type ℓ} where
  pub filter_sound : (p : A → Bool) (xs : List A) → All (λ x. p x ≡ true) (filter p xs)
  filter_sound p [] = tt
  filter_sound p (x ∷ xs) = elim (Bool-cases (p x)) [
    | inl e ↦ rw e (e, filter_sound p xs)
    | inr e ↦ rw e (filter_sound p xs)
  ]

  pub filter-All : (p : A → Bool) (xs : List A) → All (λ x. p x ≡ true) xs → filter p xs ≡ xs
  filter-All p [] h = refl
  filter-All p (x ∷ xs) (h, hs) = rw (h, filter-All p xs hs)

  module _ {κ} (R : A → A → Type κ) where
    -- Every earlier member is related to every later one.
    abbrev pub AllPairs : List A → Type κ
    AllPairs [] = Unit
    AllPairs (x ∷ xs) = All (R x) xs × AllPairs xs

module _ {ℓ κ ν} {A : Type ℓ} {P : A → Type κ} {Q : A → Type ν} where
  pub All-map : (f : (a : A) → P a → Q a) (xs : List A) → All P xs → All Q xs
  All-map f [] h = tt
  All-map f (x ∷ xs) (h, hs) = (f x h, All-map f xs hs)

module _ {ℓ κ ν} {A : Type ℓ} (P : A → Type κ) (Q : A → Type ν) where
  pub All-both : (xs : List A) → All P xs → All Q xs → All (λ x. P x × Q x) xs
  All-both [] h k = tt
  All-both (x ∷ xs) (h, hs) (k, ks) = ((h, k), All-both xs hs ks)
