-- ===== src/Identities/Reached.antt =====
-- The lists of identities that the store reaches (src/main/identity-store.ts), and the edit that
-- moves an identity to another account.
use material_email.Prelude.{
  ◌≡◌, ◌≢◌, refl, sym, subst, ◌∙◌, true, false, not, none, some, List, [], ◌∷◌, arith, map, find?,
  any, All, AllPairs-filter, Bool-cases, Option-cases, inl, inr, if◌then◌else◌,
}
use material_email.Prelude.Text.{Text, text_beq, text_beq_iff, text_beq_refl}
use material_email.Runtime.{Unicode}
use material_email.Identities.Normal.{MailIdentity, MailIdentityInput, ok}
use material_email.Identities.Choice.{
  has_identity_id, of_account, build_identity, find_given, given_identity_id, remove_identity,
}
use material_email.Identities.Stored.{
  AccountSeed, seed_input, seed_account_identity, set_default, promote_identity_to_default,
  forget_account_identities,
}
use material_email.Identities.Defaults.{HasDistinctIdentities, defaults}
use material_email.Identities.Invariant.{IsIdentityList, map-HasDistinct}
use material_email.Identities.Edits.{
  build_identity-IsIdentityList, remove_identity-IsIdentityListOf, ok_injective,
}

any-set_default :
    (a b id : Text) (xs : List MailIdentity)
    → any (of_account a) (map (set_default b id) xs) ≡ any (of_account a) xs
any-set_default a b id [] = refl
any-set_default a b id (x ∷ xs) = ground (arith, any-set_default a b id xs)

defaults-set_default_other :
    (a b id : Text) (xs : List MailIdentity)
    → text_beq a b ≡ false
    → defaults a (map (set_default b id) xs) ≡ defaults a xs
defaults-set_default_other a b id [] h = refl
defaults-set_default_other a b id (x ∷ xs) h = ground (
  arith,
  text_beq_iff a b,
  text_beq_iff x.account_id a,
  text_beq_iff x.account_id b,
  defaults-set_default_other a b id xs h,
)

defaults-set_default_absent :
    (a id : Text) (xs : List MailIdentity)
    → All (λ y. y.id ≢ id) xs
    → defaults a (map (set_default a id) xs) ≡ 0
defaults-set_default_absent a id [] h = refl
defaults-set_default_absent a id (x ∷ xs) (h, hs) =
    ground (arith, text_beq_iff x.id id, defaults-set_default_absent a id xs hs)

defaults-set_default_found :
    (id : Text) (c : MailIdentity) (xs : List MailIdentity)
    → HasDistinctIdentities xs
    → find? (has_identity_id id) xs ≡ some c
    → (defaults c.account_id (map (set_default c.account_id id) xs) ≡ 1)
      × (any (of_account c.account_id) xs ≡ true)
defaults-set_default_found id c [] d h = absurd (cc)
defaults-set_default_found id c (x ∷ xs) (d, ds) h = elim (Bool-cases (has_identity_id id x)) [
  | inl same ↦
      let first : x ≡ c = ground arith in
      let e : x.id ≡ id = (text_beq_iff x.id id).0 same in
      subst
        (λ (z : MailIdentity).
          (defaults z.account_id (map (set_default z.account_id id) (x ∷ xs)) ≡ 1)
          × (any (of_account z.account_id) (x ∷ xs) ≡ true))
        first
        (
          ground (
            arith,
            text_beq_refl x.account_id,
            same,
            defaults-set_default_absent x.account_id id xs
                (subst (λ i. All (λ (y : MailIdentity). y.id ≢ i) xs) e d),
          ),
          ground (arith, text_beq_refl x.account_id),
        )
  | inr other ↦
      let (p, q) = defaults-set_default_found id c xs ds (rw other at h) in
      (ground (arith, p), ground (arith, q))
]

-- If the chosen identity is one of an identity list, the list with it as its account's default is
-- an identity list again.
pub promote_identity_to_default-IsIdentityList :
    (identities next : List MailIdentity) (id : Text)
    → IsIdentityList identities
    → promote_identity_to_default identities id ≡ ok next
    → IsIdentityList next
unfolding promote_identity_to_default
promote_identity_to_default-IsIdentityList identities next id inv h =
    elim (Option-cases (find? (has_identity_id id) identities)) [
      | inl missing ↦ absurd (let r = rw missing at h in cc)
      | inr (c, found) ↦
          let (one, has) = defaults-set_default_found id c identities inv.distinct found in
          subst IsIdentityList (ok_injective (let r = rw found at h in r)) record {
            distinct =
                map-HasDistinct (set_default c.account_id id) (λ x. ground arith) identities
                  inv.distinct;
            one_default = λ a. elim (Bool-cases (text_beq a c.account_id)) [
              | inl same ↦
                  rw
                    (
                      (text_beq_iff a c.account_id).0 same,
                      one,
                      any-set_default c.account_id c.account_id id identities,
                      has,
                    )
                    refl
              | inr other ↦
                  defaults-set_default_other a c.account_id id identities other
                  ∙ rw (any-set_default a c.account_id id identities) (inv.one_default a)
            ];
          }
    ]

forgotten :
    (a b : Text) (xs : List MailIdentity)
    → (defaults a (forget_account_identities xs b) ≡ (if text_beq a b then 0 else defaults a xs))
      × (any (of_account a) (forget_account_identities xs b)
          ≡ (if text_beq a b then false else any (of_account a) xs))
unfolding forget_account_identities
forgotten a b [] = (ground arith, ground arith)
forgotten a b (x ∷ xs) =
    let (p, q) = forgotten a b xs in
    (
      ground (arith, p, text_beq_iff a b, text_beq_iff x.account_id a, text_beq_iff x.account_id b),
      ground (arith, q, text_beq_iff a b, text_beq_iff x.account_id a, text_beq_iff x.account_id b),
    )

pub forget_account_identities-IsIdentityList :
    (identities : List MailIdentity) (account : Text)
    → IsIdentityList identities
    → IsIdentityList (forget_account_identities identities account)
forget_account_identities-IsIdentityList identities account inv = record {
  distinct =
      unfold forget_account_identities in
      AllPairs-filter (λ (x : MailIdentity) y. y.id ≢ x.id) (λ x. not (of_account account x))
        identities inv.distinct;
  one_default = λ a. ground (
    arith,
    (forgotten a account identities).0,
    (forgotten a account identities).1,
    inv.one_default a,
  );
}

-- One edit of the stored identities that succeeds. A new identifier is not one that is taken, and an
-- identity that is changed stays with its account.
pub data Edit (u : Unicode) (xs ys : List MailIdentity) : Type 0 where
  saved :
      (input : MailIdentityInput) (fresh : Text)
      → find? (has_identity_id fresh) xs ≡ none
      → ((c : MailIdentity)
          → find_given xs (given_identity_id input.id) ≡ some c
          → c.account_id ≡ input.account_id)
      → build_identity u xs input fresh ≡ ok ys
      → Edit u xs ys
  deleted : (id : Text) → remove_identity u xs id ≡ ok ys → Edit u xs ys
  made_default : (id : Text) → promote_identity_to_default xs id ≡ ok ys → Edit u xs ys
  seeded :
      (account : AccountSeed) (fresh : Text)
      → find? (has_identity_id fresh) xs ≡ none
      → seed_account_identity u xs account fresh ≡ ok ys
      → Edit u xs ys
  forgot : (account : Text) → ys ≡ forget_account_identities xs account → Edit u xs ys

pub data Reached (u : Unicode) : List MailIdentity → Type 0 where
  start : Reached u []
  step : {xs ys : List MailIdentity} → Reached u xs → Edit u xs ys → Reached u ys

Edit-IsIdentityList :
    (u : Unicode) (xs ys : List MailIdentity) → IsIdentityList xs → Edit u xs ys → IsIdentityList ys
unfolding seed_account_identity
Edit-IsIdentityList u xs ys inv (saved input fresh unused own h) =
    build_identity-IsIdentityList u xs ys input fresh inv unused own h
Edit-IsIdentityList u xs ys inv (deleted id h) =
    (remove_identity-IsIdentityListOf u xs ys id inv h).is_list
Edit-IsIdentityList u xs ys inv (made_default id h) =
    promote_identity_to_default-IsIdentityList xs ys id inv h
Edit-IsIdentityList u xs ys inv (seeded account fresh unused h) =
    elim (Bool-cases (any (of_account account.id) xs)) [
      | inl known ↦ subst IsIdentityList (ok_injective (let r = rw known at h in r)) inv
      | inr unknown ↦
          build_identity-IsIdentityList u xs ys (seed_input u account) fresh inv unused
            (λ c e. absurd (cc)) (let r = rw unknown at h in r)
    ]
Edit-IsIdentityList u xs ys inv (forgot account e) =
    subst IsIdentityList (sym e) (forget_account_identities-IsIdentityList xs account inv)

-- Every list of identities that successful edits reach from the empty one, where new identifiers
-- are not taken and a changed identity stays with its account, has identifiers of its own, and one
-- default for every account that has identities.
pub Reached-IsIdentityList :
    (u : Unicode) (xs : List MailIdentity) → Reached u xs → IsIdentityList xs
Reached-IsIdentityList u xs start = record { distinct = tt; one_default = λ a. refl }
Reached-IsIdentityList u xs (step {xs = ys} reached edit) =
    Edit-IsIdentityList u ys xs (Reached-IsIdentityList u ys reached) edit
