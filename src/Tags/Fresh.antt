-- ===== src/Tags/Fresh.antt =====
-- The loop of `uniqueTagId` (src/shared/message-tags.ts).
use material_email.Prelude.{
  ℕ, zero, suc, ◌<◌, ◌≡◌, ◌≢◌, refl, ap, true, false, none, some, List, [], ◌∷◌, ◌++◌, arith,
  length, contains, All, AllPairs, Bool-cases, inl, inr, pigeonhole, Option-cases,
}
use material_email.Prelude.Text.{Text, text_eq, decimal}
use material_email.Prelude.Text.Laws.{decimal_injective}
use material_email.Tags.Names.{catalog_limit, first_free_suffix, unique_tag_id}

module _ (candidate : Text) where
  abbrev suffixed : ℕ → Text
  suffixed n = candidate ++ b'-' ∷ decimal n

  suffixed_injective : (m n : ℕ) → suffixed m ≡ suffixed n → m ≡ n
  suffixed_injective m n h = decimal_injective m n (tail_injective (cancel candidate h))
    where
      cancel : (s : Text) {t r : Text} → s ++ t ≡ s ++ r → t ≡ r
      cancel [] h = h
      cancel (c ∷ s) h = cancel s (cc)

      tail_injective : {c : ℕ} {s t : Text} → ◌≡◌ {A = Text} (c ∷ s) (c ∷ t) → s ≡ t
      tail_injective h = cc

  -- the texts that `rounds` rounds try, from `suffix` on
  abbrev tried : ℕ → ℕ → List Text
  tried zero suffix = []
  tried (suc rounds) suffix = suffixed suffix ∷ tried rounds (suc suffix)

  tried_later : (rounds suffix n : ℕ) → n < suffix → All (λ t. t ≢ suffixed n) (tried rounds suffix)
  tried_later zero suffix n h = tt
  tried_later (suc rounds) suffix n h = (
    λ p. absurd (omega (arith, suffixed_injective suffix n p)),
    tried_later rounds (suc suffix) n (omega arith),
  )

  tried_distinct : (rounds suffix : ℕ) → AllPairs (λ a b. b ≢ a) (tried rounds suffix)
  tried_distinct zero suffix = tt
  tried_distinct (suc rounds) suffix =
      (tried_later rounds (suc suffix) suffix (omega arith), tried_distinct rounds (suc suffix))

  length-tried : (rounds suffix : ℕ) → length (tried rounds suffix) ≡ rounds
  length-tried zero suffix = refl
  length-tried (suc rounds) suffix = ap suc (length-tried rounds (suc suffix))

  module _ (taken : List Text) where
    All-taken :
        (rounds suffix : ℕ)
        → first_free_suffix candidate taken rounds suffix ≡ none
        → All (λ t. contains taken t ≡ true) (tried rounds suffix)
    unfolding first_free_suffix
    All-taken zero suffix h = tt
    All-taken (suc rounds) suffix h = (ground arith, All-taken rounds (suc suffix) (ground arith))

    found_free :
        (rounds suffix : ℕ) (t : Text)
        → first_free_suffix candidate taken rounds suffix ≡ some t
        → contains taken t ≡ false
    unfolding first_free_suffix
    found_free zero suffix t h = cc
    found_free (suc rounds) suffix t h = elim (Bool-cases (contains taken (suffixed suffix))) [
      | inl old ↦ found_free rounds (suc suffix) t (rw old at h)
      | inr new ↦ ground arith
    ]

    first_free_suffix-ne-none :
        (rounds : ℕ) → length taken < rounds → first_free_suffix candidate taken rounds 2 ≢ none
    first_free_suffix-ne-none rounds few h = absurd (
        omega (
          arith,
          length-tried rounds 2,
          pigeonhole (tried rounds 2) taken (tried_distinct rounds 2) (All-taken rounds 2 h),
        ))

    -- Below the limit of the catalog the loop always finds a free identifier.
    pub unique_tag_id_fresh :
        length taken < catalog_limit → contains taken (unique_tag_id candidate taken) ≡ false
    unfolding unique_tag_id
    unique_tag_id_fresh few = elim (Bool-cases (contains taken candidate)) [
      | inr new ↦ rw new new
      | inl old ↦ elim (Option-cases (first_free_suffix candidate taken catalog_limit 2)) [
        | inl missed ↦ absurd (first_free_suffix-ne-none catalog_limit few missed)
        | inr (t, found) ↦ rw (old, found) (found_free catalog_limit 2 t found)
      ]
    ]
