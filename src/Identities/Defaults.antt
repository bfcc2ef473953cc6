-- ===== src/Identities/Defaults.antt =====
-- How many identities of an account are its default (src/shared/identities.ts), and what the edits
-- of the list do to that number.
use material_email.Prelude.{
  ℕ, suc, ◌+◌, ◌≡◌, ◌≢◌, refl, subst, true, not, ◌&&◌, ◌||◌, none, some, List, [], ◌∷◌, ◌++◌, arith,
  map, filter, find?, any, All, All-map, All-both, AllPairs, Bool-cases, inl, inr, if◌then◌else◌,
}
use material_email.Prelude.Text.{Text, text_beq, text_beq_iff, text_beq_refl}
use material_email.Identities.Normal.{MailIdentity}
use material_email.Identities.Choice.{has_identity_id, of_account, with_default, promoted, demoted}

abbrev pub HasDistinctIdentities : List MailIdentity → Type 0
HasDistinctIdentities = AllPairs (λ (x : MailIdentity) y. y.id ≢ x.id)

-- the number of identities of an account that are marked as its default
abbrev pub defaults : Text → List MailIdentity → ℕ
defaults account [] = 0
defaults account (x ∷ xs) =
    if of_account account x && x.is_default then suc (defaults account xs) else defaults account xs

-- Every account that has identities has one default among them.
abbrev pub HasOneDefault : List MailIdentity → Type 0
HasOneDefault identities =
    (account : Text)
    → defaults account identities ≡ (if any (of_account account) identities then 1 else 0)

-- identities without the one that has the identifier
abbrev pub without : Text → List MailIdentity → List MailIdentity
without id = filter (λ x. not (has_identity_id id x))

abbrev pub counted : Text → MailIdentity → ℕ
counted account x = if of_account account x && x.is_default then 1 else 0

pub defaults-append :
    (a : Text) (xs ys : List MailIdentity) → defaults a (xs ++ ys) ≡ defaults a xs + defaults a ys
defaults-append a [] ys = omega arith
defaults-append a (x ∷ xs) ys = ground (arith, defaults-append a xs ys)

pub defaults-demoted :
    (a b : Text) (xs : List MailIdentity)
    → defaults a (map (demoted b) xs) ≡ (if text_beq a b then 0 else defaults a xs)
defaults-demoted a b [] = ground arith
defaults-demoted a b (x ∷ xs) = ground (
  arith,
  text_beq_iff a b,
  text_beq_iff x.account_id a,
  text_beq_iff x.account_id b,
  defaults-demoted a b xs,
)

pub any-demoted :
    (a b : Text) (xs : List MailIdentity)
    → any (of_account a) (map (demoted b) xs) ≡ any (of_account a) xs
any-demoted a b [] = refl
any-demoted a b (x ∷ xs) = ground (arith, any-demoted a b xs)

pub any-promoted :
    (a id : Text) (xs : List MailIdentity)
    → any (of_account a) (map (promoted id) xs) ≡ any (of_account a) xs
any-promoted a id [] = refl
any-promoted a id (x ∷ xs) = ground (arith, any-promoted a id xs)

pub without_of_absent :
    (id : Text) (xs : List MailIdentity) → All (λ y. y.id ≢ id) xs → without id xs ≡ xs
without_of_absent id [] h = refl
without_of_absent id (x ∷ xs) (h, hs) =
    ground (arith, text_beq_iff x.id id, without_of_absent id xs hs)

promoted_of_absent :
    (id : Text) (xs : List MailIdentity) → All (λ y. y.id ≢ id) xs → map (promoted id) xs ≡ xs
promoted_of_absent id [] h = refl
promoted_of_absent id (x ∷ xs) (h, hs) =
    ground (arith, text_beq_iff x.id id, promoted_of_absent id xs hs)

pub absent_of_none :
    (id : Text) (xs : List MailIdentity)
    → find? (has_identity_id id) xs ≡ none
    → All (λ y. y.id ≢ id) xs
absent_of_none id [] h = tt
absent_of_none id (x ∷ xs) h = elim (Bool-cases (has_identity_id id x)) [
  | inl same ↦ absurd (ground arith)
  | inr other ↦ (λ e. ground (arith, text_beq_iff x.id id), absent_of_none id xs (rw other at h))
]

-- What a found identity adds to the counts, and what promoting it does.
pub found_counts :
    (a id : Text) (c : MailIdentity) (xs : List MailIdentity)
    → HasDistinctIdentities xs
    → find? (has_identity_id id) xs ≡ some c
    → (defaults a xs ≡ counted a c + defaults a (without id xs))
      × (any (of_account a) xs ≡ (of_account a c || any (of_account a) (without id xs)))
      × (defaults a (map (promoted id) xs)
          ≡ counted a (with_default true c) + defaults a (without id xs))
      × (c.id ≡ id)
found_counts a id c [] d h = absurd (cc)
found_counts a id c (x ∷ xs) (d, ds) h = elim (Bool-cases (has_identity_id id x)) [
  | inl same ↦
      let first : x ≡ c = ground arith in
      let e : x.id ≡ id = (text_beq_iff x.id id).0 same in
      let absent : All (λ y. y.id ≢ id) xs =
        subst (λ i. All (λ (y : MailIdentity). y.id ≢ i) xs) e d in
      subst
        (λ (z : MailIdentity).
          (defaults a (x ∷ xs) ≡ counted a z + defaults a (without id (x ∷ xs)))
          × (any (of_account a) (x ∷ xs)
              ≡ (of_account a z || any (of_account a) (without id (x ∷ xs))))
          × (defaults a (map (promoted id) (x ∷ xs))
              ≡ counted a (with_default true z) + defaults a (without id (x ∷ xs)))
          × (z.id ≡ id))
        first
        (rw (same, without_of_absent id xs absent, promoted_of_absent id xs absent)
          (ground arith, refl, ground arith, e))
  | inr other ↦
      let (p, q, r, s) = found_counts a id c xs ds (rw other at h) in
      rw other (ground (arith, p), ground (arith, q), ground (arith, r), s)
]

pub found_self :
    (xs : List MailIdentity)
    → HasDistinctIdentities xs
    → All (λ x. find? (has_identity_id x.id) xs ≡ some x) xs
found_self [] d = tt
found_self (x ∷ xs) (d, ds) = (
  rw (text_beq_refl x.id) refl,
  All-map (λ (y : MailIdentity) h. ground (arith, text_beq_iff x.id y.id)) xs
      (All-both _ _ xs (found_self xs ds) d),
)
