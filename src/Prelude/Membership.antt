-- ===== src/Prelude/Membership.antt =====
-- `includes` on arrays: what filters, maps and concatenations hold, and the pigeonhole principle.
use Prim.Native.Nat.{Ordering, suc, ◌≤◌, ◌<◌}
use mathlib.Core.Path.{◌≡◌, refl}
use mathlib.Core.Logic.{◌≢◌, inl, inr}
use mathlib.Core.Bool.{Bool, true, false, not, ◌&&◌, ◌||◌}
use mathlib.Core.List.{List, [], ◌∷◌, ◌++◌, map}
use native.Mathlib.Omega.{arith}
use material_email.Prelude.Tests.{Eq, ◌==◌, Bool-cases}
use material_email.Prelude.Lists.{length, filter, any, contains, unique}
use material_email.Prelude.Sort.{sort_insert, sort}
use material_email.Prelude.Predicates.{All, AllPairs}

module _ {ℓ} {A : Type ℓ} where
  pub any-append : (p : A → Bool) (xs ys : List A) → any p (xs ++ ys) ≡ (any p xs || any p ys)
  any-append p [] ys = refl
  any-append p (x ∷ xs) ys = ground (arith, any-append p xs ys)

  pub any-filter : (p q : A → Bool) (xs : List A) → any p (filter q xs) ≡ any (λ x. q x && p x) xs
  any-filter p q [] = refl
  any-filter p q (x ∷ xs) = ground (arith, any-filter p q xs)

  pub any-false_of_All : (p : A → Bool) (xs : List A) → All (λ x. p x ≡ false) xs → any p xs ≡ false
  any-false_of_All p [] h = refl
  any-false_of_All p (x ∷ xs) (h, hs) = ground (arith, any-false_of_All p xs hs)

  pub All-any-false : (p : A → Bool) (xs : List A) → any p xs ≡ false → All (λ x. p x ≡ false) xs
  All-any-false p [] h = tt
  All-any-false p (x ∷ xs) h = (ground arith, All-any-false p xs (ground arith))

  pub any_congr : (p q : A → Bool) (xs : List A) → ((x : A) → p x ≡ q x) → any p xs ≡ any q xs
  any_congr p q [] h = refl
  any_congr p q (x ∷ xs) h = ground (arith, h x, any_congr p q xs h)

  pub any-map {κ} :
      {B : Type κ} (p : B → Bool) (f : A → B) (xs : List A)
      → any p (map f xs) ≡ any (λ x. p (f x)) xs
  any-map p f [] = refl
  any-map p f (x ∷ xs) = ground (arith, any-map p f xs)

  any-sort_insert :
      (cmp : A → A → Ordering) (p : A → Bool) (x : A) (ys : List A)
      → any p (sort_insert cmp x ys) ≡ (p x || any p ys)
  unfolding sort_insert
  any-sort_insert cmp p x [] = refl
  any-sort_insert cmp p x (y ∷ ys) = ground (arith, any-sort_insert cmp p x ys)

  pub any-sort :
      (cmp : A → A → Ordering) (p : A → Bool) (xs : List A) → any p (sort cmp xs) ≡ any p xs
  unfolding sort
  any-sort cmp p [] = refl
  any-sort cmp p (x ∷ xs) = ground (arith, any-sort_insert cmp p x (sort cmp xs), any-sort cmp p xs)

module _ {ℓ} {A : Type ℓ} ⦃e : Eq A⦄ where
  pub beq_refl : (a : A) → (a == a) ≡ true
  beq_refl a = (e.same_iff a a).1 refl

  pub contains-without :
      (x y : A) (ys : List A) → y ≢ x → contains (filter (λ z. not (z == x)) ys) y ≡ contains ys y
  contains-without x y [] n = refl
  contains-without x y (z ∷ ys) n =
      ground (arith, e.same_iff z x, e.same_iff z y, contains-without x y ys n)

  length-without :
      (x : A) (ys : List A)
      → contains ys x ≡ true
      → length (filter (λ z. not (z == x)) ys) < length ys
  length-without x [] h = cc
  length-without x (z ∷ ys) h = elim (Bool-cases (z == x)) [
    | inl same ↦ rw same (length-filter_lt (λ w. not (w == x)) ys)
    | inr other ↦ rw other (ground (arith, length-without x ys))
  ]
    where
      length-filter_lt : (p : A → Bool) (ws : List A) → length (filter p ws) < suc (length ws)
      length-filter_lt p ws = omega (arith, material_email.Prelude.Lists.length-filter p ws)

  -- Distinct members of a list are no more than the list has places.
  pub pigeonhole :
      (xs ys : List A)
      → AllPairs (λ a b. b ≢ a) xs
      → All (λ a. contains ys a ≡ true) xs
      → length xs ≤ length ys
  pigeonhole [] ys d h = omega arith
  pigeonhole (x ∷ xs) ys (d, ds) (h, hs) = omega (
    arith,
    length-without x ys h,
    pigeonhole xs (filter (λ z. not (z == x)) ys) ds (still_there xs d hs),
  )
    where
      still_there :
          (ws : List A)
          → All (λ w. w ≢ x) ws
          → All (λ w. contains ys w ≡ true) ws
          → All (λ w. contains (filter (λ z. not (z == x)) ys) w ≡ true) ws
      still_there [] n k = tt
      still_there (w ∷ ws) (n, ns) (k, ks) =
          (rw (contains-without x w ys n) k, still_there ws ns ks)
