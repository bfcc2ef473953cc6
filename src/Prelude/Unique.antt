-- ===== src/Prelude/Unique.antt =====
-- `[...new Set(xs)]`: the same members, none twice.
use mathlib.Core.Path.{◌≡◌, refl, sym, ◌∙◌}
use mathlib.Core.Logic.{◌≢◌, inl, inr}
use mathlib.Core.Bool.{not}
use mathlib.Core.List.{List, [], ◌∷◌}
use native.Mathlib.Omega.{arith}
use material_email.Prelude.Tests.{Eq, ◌==◌, Bool-cases}
use material_email.Prelude.Lists.{filter, contains, unique}
use material_email.Prelude.Predicates.{All-map, AllPairs, filter_sound}
use material_email.Prelude.Pairs.{AllPairs-filter}
use material_email.Prelude.Membership.{contains-without}

module _ {ℓ} {A : Type ℓ} ⦃e : Eq A⦄ where
  -- No member stands twice.
  pub unique-distinct : (xs : List A) → AllPairs (λ a b. b ≢ a) (unique xs)
  unique-distinct [] = tt
  unique-distinct (x ∷ xs) = (
    All-map (λ y h p. ground (arith, (e.same_iff y x).1 p)) (filter (λ y. not (y == x)) (unique xs))
        (filter_sound (λ y. not (y == x)) (unique xs)),
    AllPairs-filter (λ a b. b ≢ a) (λ y. not (y == x)) (unique xs) (unique-distinct xs),
  )

  -- A member of the set is a member of the array, and the other way round.
  pub contains-unique : (a : A) (xs : List A) → contains (unique xs) a ≡ contains xs a
  contains-unique a [] = refl
  contains-unique a (x ∷ xs) = elim (Bool-cases (x == a)) [
    | inl same ↦ rw same
    | inr other ↦ rw other (
        contains-without x a (unique xs) (λ p. ground (arith, (e.same_iff x a).1 (sym p)))
        ∙ contains-unique a xs)
  ]
