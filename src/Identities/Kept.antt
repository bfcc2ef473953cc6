-- ===== src/Identities/Kept.antt =====
-- Placing, removing and promoting identities (buildIdentity and removeIdentity of
-- src/shared/identities.ts, src/main/identity-store.ts) in lists with one default for each account.
use material_email.Prelude.{
  ◌+◌, ◌≤◌, ◌≡◌, ◌≢◌, refl, sym, subst, ◌∙◌, true, not, some, List, [], ◌∷◌, ◌++◌, arith, map,
  find?, any, ltb, All, All-map, AllPairs-filter, AllPairs-concat, All-of_map, filter_sound,
  Bool-cases, Option-cases, inl, inr, if◌then◌else◌,
}
use material_email.Prelude.Text.{Text, text_beq, text_beq_iff, text_beq_refl}
use material_email.Runtime.{Unicode}
use material_email.Identities.Normal.{MailIdentity}
use material_email.Identities.Choice.{
  has_identity_id, of_account, demoted, place_identity, settle_default,
}
use material_email.Identities.Defaults.{
  HasDistinctIdentities, defaults, without, counted, defaults-append, defaults-demoted, any-demoted,
  without_of_absent, absent_of_none, found_counts,
}
use material_email.Identities.Invariant.{
  IsIdentityList, any_default, any-concat, demoted_id, map-HasDistinct, promote_first_lem,
}

-- An identity list but for one account, which may be without a default.
pub record IsNearIdentityList (a : Text) (identities : List MailIdentity) : Type 0 where
  pub distinct : HasDistinctIdentities identities
  pub at_most_one : defaults a identities ≤ 1
  pub elsewhere :
      (b : Text) → b ≢ a → defaults b identities ≡ (if any (of_account b) identities then 1 else 0)

pub settle_default-IsIdentityList :
    (u : Unicode) (a : Text) (next : List MailIdentity)
    → IsNearIdentityList a next
    → any (of_account a) next ≡ true
    → IsIdentityList (settle_default u a next)
unfolding settle_default
settle_default-IsIdentityList u a next near has = elim (Bool-cases (ltb 0 (defaults a next))) [
  | inl some_default ↦
      rw (any_default a next, some_default)
        record {
          distinct = near.distinct;
          one_default = λ b. elim (Bool-cases (text_beq b a)) [
            | inl same ↦
                rw ((text_beq_iff b a).0 same, has) (ground (arith, near.at_most_one, some_default))
            | inr other ↦ near.elsewhere b (λ e. ground (arith, text_beq_iff b a))
          ];
        }
  | inr no_default ↦
      let (d, counts) = promote_first_lem u a next near.distinct (ground (arith, no_default)) has in
      rw (any_default a next, no_default)
        record {
          distinct = d;
          one_default = λ b. elim (Bool-cases (text_beq a b)) [
            | inl same ↦
                let e : a ≡ b = (text_beq_iff a b).0 same in
                (counts b).0
                ∙ rw (same, (counts b).1)
                    (rw (subst (λ c. any (of_account c) next ≡ true) e has) refl)
            | inr other ↦
                (counts b).0
                ∙ rw (other, (counts b).1)
                    (near.elsewhere b (λ e. ground (arith, text_beq_iff a b)))
          ];
        }
]

-- What is left of an identity list without an identity, if there is one, of an account.
pub without-IsNear :
    (id a : Text) (xs : List MailIdentity)
    → IsIdentityList xs
    → ((c : MailIdentity) → find? (has_identity_id id) xs ≡ some c → c.account_id ≡ a)
    → IsNearIdentityList a (without id xs)
without-IsNear id a xs inv mine = elim (Option-cases (find? (has_identity_id id) xs)) [
  | inl missing ↦
      subst (IsNearIdentityList a) (sym (without_of_absent id xs (absent_of_none id xs missing)))
        record {
          distinct = inv.distinct;
          at_most_one = ground (arith, inv.one_default a);
          elsewhere = λ b ne. inv.one_default b;
        }
  | inr (c, found) ↦ record {
    distinct =
        AllPairs-filter (λ (x : MailIdentity) y. y.id ≢ x.id) (λ x. not (has_identity_id id x)) xs
          inv.distinct;
    at_most_one = ground (arith, (found_counts a id c xs inv.distinct found).0, inv.one_default a);
    elsewhere = λ b ne.
        let (p, q, r, s) = found_counts b id c xs inv.distinct found in
        ground (arith, p, q, inv.one_default b, mine c found, text_beq_iff c.account_id b);
  }
]

defaults-concat :
    (b : Text) (xs : List MailIdentity) (i : MailIdentity)
    → defaults b (xs ++ i ∷ []) ≡ defaults b xs + counted b i
defaults-concat b xs i = ground (arith, defaults-append b xs (i ∷ []))

-- the list before settling: the others, demoted where the identity is a default, and the identity
abbrev pub joined : List MailIdentity → MailIdentity → List MailIdentity
joined others i = (if i.is_default then map (demoted i.account_id) others else others) ++ i ∷ []

pub joined-HasDistinct :
    (others : List MailIdentity) (i : MailIdentity)
    → HasDistinctIdentities others
    → All (λ x. i.id ≢ x.id) others
    → HasDistinctIdentities (joined others i)
joined-HasDistinct others i d fresh = elim (Bool-cases i.is_default) [
  | inl first ↦
      subst
        (λ flag.
          HasDistinctIdentities ((if flag then map (demoted a) others else others) ++ i ∷ []))
        (sym first)
        (AllPairs-concat (λ (x : MailIdentity) y. y.id ≢ x.id) (map (demoted a) others) i
          (map-HasDistinct (demoted a) (demoted_id a) others d)
          (All-of_map (λ (x : MailIdentity). i.id ≢ x.id) (demoted a) others
            (All-map {Q = λ (x : MailIdentity). i.id ≢ (demoted a x).id}
              (λ (x : MailIdentity) ne e. ne (e ∙ demoted_id a x)) others fresh)))
  | inr second ↦
      subst
        (λ flag.
          HasDistinctIdentities ((if flag then map (demoted a) others else others) ++ i ∷ []))
        (sym second) (AllPairs-concat (λ (x : MailIdentity) y. y.id ≢ x.id) others i d fresh)
]
  where
    a : Text
    a = i.account_id

pub defaults-joined :
    (b : Text) (others : List MailIdentity) (i : MailIdentity)
    → b ≢ i.account_id
    → (defaults b (joined others i) ≡ defaults b others)
      × (any (of_account b) (joined others i) ≡ any (of_account b) others)
defaults-joined b others i ne = elim (Bool-cases i.is_default) [
  | inl first ↦ rw first (
    ground (
      arith,
      defaults-concat b (map (demoted i.account_id) others) i,
      defaults-demoted b i.account_id others,
      text_beq_iff b i.account_id,
      text_beq_iff i.account_id b,
    ),
    ground (
      arith,
      any-concat b (map (demoted i.account_id) others) i,
      any-demoted b i.account_id others,
      text_beq_iff i.account_id b,
    ),
  )
  | inr second ↦ rw second (
    ground (arith, defaults-concat b others i, text_beq_iff i.account_id b),
    ground (arith, any-concat b others i, text_beq_iff i.account_id b),
  )
]

-- An identity joins a list of the others as its account's default, or as another one.
joined-IsNear :
    (others : List MailIdentity) (i : MailIdentity)
    → IsNearIdentityList i.account_id others
    → All (λ x. i.id ≢ x.id) others
    → IsNearIdentityList i.account_id (joined others i)
joined-IsNear others i near fresh = record {
  distinct = joined-HasDistinct others i near.distinct fresh;
  at_most_one = elim (Bool-cases i.is_default) [
    | inl first ↦ rw first (
        ground (
          arith,
          defaults-concat i.account_id (map (demoted i.account_id) others) i,
          defaults-demoted i.account_id i.account_id others,
          text_beq_refl i.account_id,
        ))
    | inr second ↦
        rw second (ground (arith, defaults-concat i.account_id others i, near.at_most_one))
  ];
  elsewhere = λ b ne. let (p, q) = defaults-joined b others i ne in p ∙ rw q (near.elsewhere b ne);
}

pub any-joined :
    (others : List MailIdentity) (i : MailIdentity)
    → any (of_account i.account_id) (joined others i) ≡ true
any-joined others i =
    any-concat i.account_id (if i.is_default then map (demoted i.account_id) others else others) i
    ∙ ground (arith, text_beq_refl i.account_id)

pub without-apart : (id : Text) (xs : List MailIdentity) → All (λ x. id ≢ x.id) (without id xs)
without-apart id xs =
    All-map {Q = λ (x : MailIdentity). id ≢ x.id}
      (λ (x : MailIdentity) h e. ground (arith, text_beq_iff x.id id)) (without id xs)
      (filter_sound (λ x. not (has_identity_id id x)) xs)

pub place_identity-IsIdentityList :
    (u : Unicode) (xs : List MailIdentity) (i : MailIdentity)
    → IsIdentityList xs
    → ((c : MailIdentity) → find? (has_identity_id i.id) xs ≡ some c → c.account_id ≡ i.account_id)
    → IsIdentityList (place_identity u xs i)
unfolding place_identity
place_identity-IsIdentityList u xs i inv mine =
    settle_default-IsIdentityList u i.account_id (joined (without i.id xs) i)
      (joined-IsNear (without i.id xs) i (without-IsNear i.id i.account_id xs inv mine)
        (without-apart i.id xs))
      (any-joined (without i.id xs) i)
