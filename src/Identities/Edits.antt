-- ===== src/Identities/Edits.antt =====
-- The edits of the stored identities (src/main/identity-store.ts), over buildIdentity and
-- removeIdentity of src/shared/identities.ts.
use material_email.Prelude.{
  ◌≡◌, ◌≢◌, refl, sym, ap, subst, ◌∙◌, true, false, not, Option, none, some, List, [], arith,
  filter, find?, any, AllPairs-filter, Bool-cases, Option-cases, inl, inr,
}
use material_email.Prelude.Text.{Text, text_beq, text_beq_iff, text_beq_refl}
use material_email.Runtime.{Unicode}
use material_email.Identities.Normal.{
  MailIdentity, MailIdentityInput, ok, err, validate_identity_input, Result, ◌>>◌,
}
use material_email.Identities.Choice.{
  has_identity_id, of_account, head?, sort_identities, identities_for_account, place_identity,
  promote_first, built_identity, build_identity, build_guard, find_given, given_identity_id,
  identity_id_or, remove_identity,
}
use material_email.Identities.Defaults.{HasDistinctIdentities, defaults, without, found_counts}
use material_email.Identities.Invariant.{
  IsIdentityList, defaults_le_any, promote_first_lem, no_identities-filter,
}
use material_email.Identities.Kept.{place_identity-IsIdentityList, without-IsNear}

pub ok_injective : {A : Type 0} {x y : A} → ok x ≡ ok y → x ≡ y
ok_injective h = cc

-- A sequence that succeeds goes through its steps.
after :
    {B : Type 0} {v : B} (first : Result (Unit {0})) (second : Result B)
    → (first >> second) ≡ ok v
    → second ≡ ok v
after (ok tt) second h = h
after (err e) second h = absurd (cc)

-- What a saved identity is placed as.
pub build_identity-placed :
    (u : Unicode) (existing next : List MailIdentity) (input : MailIdentityInput) (fresh : Text)
    → build_identity u existing input fresh ≡ ok next
    → place_identity u existing (
        built_identity u
          (identities_for_account u existing input.account_id)
          (find_given existing (given_identity_id input.id))
          input
          fresh)
      ≡ next
unfolding build_identity
build_identity-placed u existing next input fresh h = ok_injective (
    after
      (build_guard (identities_for_account u existing input.account_id) (given_identity_id input.id)
        (find_given existing (given_identity_id input.id)))
      _ (after (validate_identity_input u input) _ h))

pub find_given-found :
    (xs : List MailIdentity) (given : Option Text) (d : MailIdentity)
    → HasDistinctIdentities xs
    → find_given xs given ≡ some d
    → find_given xs given ≡ find? (has_identity_id d.id) xs
find_given-found xs none d distinct h = absurd (cc)
find_given-found xs (some id) d distinct h = rw ((found_counts id id d xs distinct h).3) refl

-- If the stored identities have identifiers of their own and one default for every account that has
-- any, the new identifier is not taken, and an identity that is changed belongs to the account that
-- the input names, then the identities that are saved are such a list again.
pub build_identity-IsIdentityList :
    (u : Unicode) (existing next : List MailIdentity) (input : MailIdentityInput) (fresh : Text)
    → IsIdentityList existing
    → find? (has_identity_id fresh) existing ≡ none
    → ((c : MailIdentity)
        → find_given existing (given_identity_id input.id) ≡ some c
        → c.account_id ≡ input.account_id)
    → build_identity u existing input fresh ≡ ok next
    → IsIdentityList next
unfolding built_identity
build_identity-IsIdentityList u existing next input fresh inv unused own h =
    subst IsIdentityList (build_identity-placed u existing next input fresh h) (
      place_identity-IsIdentityList u existing
        (built_identity u (identities_for_account u existing input.account_id)
          (find_given existing (given_identity_id input.id)) input fresh)
        inv mine)
  where
    mine :
        (c : MailIdentity)
        → find?
            (has_identity_id
              (identity_id_or (find_given existing (given_identity_id input.id)) fresh))
            existing
          ≡ some c
        → c.account_id ≡ input.account_id
    mine c found = elim (Option-cases (find_given existing (given_identity_id input.id))) [
      | inl missing ↦
          let none_found : none ≡ some c = sym unused ∙ (rw missing at found) in absurd (cc)
      | inr (d, known) ↦ own c (
          find_given-found existing (given_identity_id input.id) d inv.distinct known
          ∙ (rw known at found))
    ]

count_of_found :
    (a id : Text) (c : MailIdentity) (xs : List MailIdentity)
    → IsIdentityList xs
    → find? (has_identity_id id) xs ≡ some c
    → c.is_default ≡ false
    → (defaults a (without id xs) ≡ defaults a xs)
      × (any (of_account a) (without id xs) ≡ any (of_account a) xs)
count_of_found a id c xs inv found second =
    let (p, q, r, s) = found_counts a id c xs inv.distinct found in
    (
      ground (arith, p, second),
      ground (arith, p, q, second, inv.one_default a, defaults_le_any a (without id xs)),
    )

-- an identity list in which the accounts are those of an earlier list
pub record IsIdentityListOf (earlier identities : List MailIdentity) : Type 0 where
  pub is_list : IsIdentityList identities
  pub same_accounts : (a : Text) → any (of_account a) identities ≡ any (of_account a) earlier

without-IsIdentityListOf :
    (id : Text) (c : MailIdentity) (xs : List MailIdentity)
    → IsIdentityList xs
    → find? (has_identity_id id) xs ≡ some c
    → c.is_default ≡ false
    → IsIdentityListOf xs (without id xs)
without-IsIdentityListOf id c xs inv found second = record {
  is_list = record {
    distinct =
        AllPairs-filter (λ (x : MailIdentity) y. y.id ≢ x.id) (λ x. not (has_identity_id id x)) xs
          inv.distinct;
    one_default =
        λ a. let (p, q) = count_of_found a id c xs inv found second in p ∙ rw q (inv.one_default a);
  };
  same_accounts = λ a. (count_of_found a id c xs inv found second).1;
}

promoted-IsIdentityListOf :
    (u : Unicode) (id : Text) (c : MailIdentity) (xs : List MailIdentity)
    → IsIdentityList xs
    → find? (has_identity_id id) xs ≡ some c
    → c.is_default ≡ true
    → any (of_account c.account_id) (without id xs) ≡ true
    → IsIdentityListOf xs (
        promote_first
          (without id xs)
          (head? (sort_identities u (filter (of_account c.account_id) (without id xs)))))
promoted-IsIdentityListOf u id c xs inv found first has =
    let near =
      without-IsNear id c.account_id xs inv
        (λ d e. ap (λ (o : Option MailIdentity). account_or o) (sym e ∙ found)) in
    let at_account = found_counts c.account_id id c xs inv.distinct found in
    let (d, counts) =
      promote_first_lem u c.account_id (without id xs) near.distinct
        (ground
          (arith, at_account.0, inv.one_default c.account_id, first, text_beq_refl c.account_id))
        has in
    record {
      is_list = record {
        distinct = d;
        one_default = λ b. elim (Bool-cases (text_beq c.account_id b)) [
          | inl same ↦
              let e : c.account_id ≡ b = (text_beq_iff c.account_id b).0 same in
              (counts b).0
              ∙ rw (same, (counts b).1)
                  (rw (subst (λ a. any (of_account a) (without id xs) ≡ true) e has) refl)
          | inr other ↦
              (counts b).0
              ∙ rw (other, (counts b).1)
                  (near.elsewhere b (λ e. ground (arith, text_beq_iff c.account_id b)))
        ];
      };
      same_accounts = λ b.
          let (p, q, r, s) = found_counts b id c xs inv.distinct found in
          (counts b).1 ∙ ground (arith, q, has, text_beq_iff c.account_id b);
    }
  where
    account_or : Option MailIdentity → Text
    account_or none = []
    account_or (some d) = d.account_id

-- If an identity list is left without one of its identities, it is an identity list again, and
-- every account that had an identity still has one.
pub remove_identity-IsIdentityListOf :
    (u : Unicode) (existing next : List MailIdentity) (id : Text)
    → IsIdentityList existing
    → remove_identity u existing id ≡ ok next
    → IsIdentityListOf existing next
unfolding remove_identity
remove_identity-IsIdentityListOf u existing next id inv h =
    elim (Option-cases (find? (has_identity_id id) existing)) [
      | inl missing ↦ absurd (let r = rw missing at h in cc)
      | inr (c, found) ↦ elim (Bool-cases c.is_default) [
        | inr second ↦
            subst (IsIdentityListOf existing) (ok_injective (let r = rw (found, second) at h in r))
              (without-IsIdentityListOf id c existing inv found second)
        | inl first ↦ elim (Bool-cases (any (of_account c.account_id) (without id existing))) [
          | inr alone ↦ absurd (
              let r =
                rw (found, first, no_identities-filter c.account_id (without id existing), alone) at
                  h in
              cc)
          | inl has ↦
              subst (IsIdentityListOf existing)
                (ok_injective (
                  let r =
                    rw (found, first, no_identities-filter c.account_id (without id existing), has)
                      at h in
                  r))
                (promoted-IsIdentityListOf u id c existing inv found first has)
        ]
      ]
    ]
