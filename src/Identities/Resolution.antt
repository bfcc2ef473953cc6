-- ===== src/Identities/Resolution.antt =====
-- The identity that a draft or a reply is sent from (src/shared/identities.ts).
use material_email.Prelude.{
  ◌≡◌, refl, subst, ◌∙◌, Bool, true, false, not, Option, none, some, List, [], ◌∷◌, arith, filter,
  find?, any, length, contains, All, All-map, All-both, All-filter, filter_sound, Bool-cases, inl,
  inr, All-sort, sort, length-sort, IsComparator, IsSorted, sort-IsSorted, compare-IsComparator,
  key-IsComparator, then-IsComparator, not_gt, Ordering, any-sort,
}
use material_email.Prelude.Text.{Text, text_eq, text_beq_iff}
use material_email.Runtime.{Unicode}
use material_email.Identities.Normal.{MailIdentity}
use material_email.Identities.Choice.{
  number, has_identity_id, of_account, head?, no_identities, compare_identities, sort_identities,
  identities_for_account, default_identity_for, find_given, given_identity_id, resolve_identity,
  identity_for_reply, ReplyTarget, or_else, addressed, address_set, reply_candidate,
}
use material_email.Identities.Defaults.{HasDistinctIdentities, found_self}
use material_email.Identities.Invariant.{IsIdentityList, no_identities-filter, any_default}

compare_identities-IsComparator : (u : Unicode) → IsComparator (compare_identities u)
compare_identities-IsComparator u =
    then-IsComparator
      (reversed (key-IsComparator (λ (x : MailIdentity). number x.is_default) compare-IsComparator))
      (then-IsComparator (key-IsComparator (λ (x : MailIdentity). x.ordinal) compare-IsComparator) (
        then-IsComparator (key-IsComparator (λ (x : MailIdentity). x.display_name) u.comparator)
          (key-IsComparator (λ (x : MailIdentity). x.id) u.comparator)))
  where
    reversed :
        {cmp : MailIdentity → MailIdentity → Ordering}
        → IsComparator cmp
        → IsComparator (λ x y. cmp y x)
    reversed c = record {
      swapped = λ x y. c.swapped y x;
      le_trans = λ x y z h k. c.le_trans z y x k h;
    }

-- An identity of the account that is in the list, or none where the account has none.
abbrev pub IsChoice : Text → List MailIdentity → Option MailIdentity → Type 0
IsChoice account identities none = any (of_account account) identities ≡ false
IsChoice account identities (some i) =
    (i.account_id ≡ account) × (find? (has_identity_id i.id) identities ≡ some i)

abbrev IsMember : Text → List MailIdentity → MailIdentity → Type 0
IsMember account identities i =
    (i.account_id ≡ account) × (find? (has_identity_id i.id) identities ≡ some i)

candidates_lem :
    (u : Unicode) (account : Text) (identities : List MailIdentity)
    → HasDistinctIdentities identities
    → All (IsMember account identities) (identities_for_account u identities account)
unfolding identities_for_account sort_identities
candidates_lem u account identities d =
    All-sort (compare_identities u) (IsMember account identities)
      (filter (of_account account) identities)
      (All-both _ _ (filter (of_account account) identities)
        (All-map {Q = λ x. x.account_id ≡ account}
          (λ (x : MailIdentity) h. (text_beq_iff x.account_id account).0 h)
          (filter (of_account account) identities) (filter_sound (of_account account) identities))
        (All-filter (λ x. find? (has_identity_id x.id) identities ≡ some x) (of_account account)
          identities (found_self identities d)))

no_candidates :
    (u : Unicode) (account : Text) (identities : List MailIdentity)
    → no_identities (identities_for_account u identities account)
      ≡ not (any (of_account account) identities)
unfolding identities_for_account sort_identities
no_candidates u account identities =
    empty_by_length (sort (compare_identities u) (filter (of_account account) identities))
      (filter (of_account account) identities)
      (length-sort (compare_identities u) (filter (of_account account) identities))
    ∙ no_identities-filter account identities
  where
    empty_by_length :
        (xs ys : List MailIdentity) → length xs ≡ length ys → no_identities xs ≡ no_identities ys
    empty_by_length [] [] h = refl
    empty_by_length [] (y ∷ ys) h = absurd (omega (arith, h))
    empty_by_length (x ∷ xs) [] h = absurd (omega (arith, h))
    empty_by_length (x ∷ xs) (y ∷ ys) h = refl

find?-All :
    (P : MailIdentity → Type 0) (p : MailIdentity → Bool) (xs : List MailIdentity)
    (i : MailIdentity)
    → All P xs
    → find? p xs ≡ some i
    → P i
find?-All P p [] i h e = absurd (cc)
find?-All P p (x ∷ xs) i (h, hs) e = elim (Bool-cases (p x)) [
  | inl yes_p ↦ subst P (ground arith) h
  | inr not_p ↦ find?-All P p xs i hs (rw not_p at e)
]

find_given-All :
    (P : MailIdentity → Type 0) (xs : List MailIdentity) (given : Option Text) (i : MailIdentity)
    → All P xs
    → find_given xs given ≡ some i
    → P i
find_given-All P xs none i h e = absurd (cc)
find_given-All P xs (some id) i h e = find?-All P (has_identity_id id) xs i h e

head?-IsChoice :
    (account : Text) (identities xs : List MailIdentity)
    → All (IsMember account identities) xs
    → no_identities xs ≡ false
    → IsChoice account identities (head? xs)
head?-IsChoice account identities [] h e = absurd (cc)
head?-IsChoice account identities (x ∷ xs) (h, hs) e = h

or_else-IsChoice :
    (account : Text) (identities : List MailIdentity) (first second : Option MailIdentity)
    → ((i : MailIdentity) → first ≡ some i → IsMember account identities i)
    → IsChoice account identities second
    → IsChoice account identities (or_else first second)
or_else-IsChoice account identities none second h k = k
or_else-IsChoice account identities (some i) second h k = h i refl

-- In a list of identities with identifiers of their own, the identity that a draft is sent from is
-- one of the account's in the list whatever identifier the draft names, and there is none only
-- where the account has none.
pub resolve_identity-IsChoice :
    (u : Unicode) (identities : List MailIdentity) (account : Text) (id : Option Text)
    → HasDistinctIdentities identities
    → IsChoice account identities (resolve_identity u identities account id)
unfolding resolve_identity default_identity_for
resolve_identity-IsChoice u identities account id d =
    elim (Bool-cases (no_identities (identities_for_account u identities account))) [
      | inl empty ↦ rw empty (ground (arith, no_candidates u account identities))
      | inr filled ↦ rw filled (
          or_else-IsChoice account identities
            (find_given (identities_for_account u identities account) (given_identity_id id))
            (head? (identities_for_account u identities account))
            (λ i.
              find_given-All _ (identities_for_account u identities account) (given_identity_id id)
                i (candidates_lem u account identities d))
            (head?-IsChoice account identities (identities_for_account u identities account)
              (candidates_lem u account identities d) filled))
    ]

-- In a list of identities with identifiers of their own, the identity that a reply is sent from is
-- one of the account's in the list whoever the message was addressed to, and there is none only
-- where the account has none.
pub identity_for_reply-IsChoice :
    (u : Unicode) (identities : List MailIdentity) (account : Text) (message : Option ReplyTarget)
    → HasDistinctIdentities identities
    → IsChoice account identities (identity_for_reply u identities account message)
unfolding identity_for_reply default_identity_for
identity_for_reply-IsChoice u identities account message d =
    elim (Bool-cases (no_identities (identities_for_account u identities account))) [
      | inl empty ↦ rw empty (ground (arith, no_candidates u account identities))
      | inr filled ↦ rw filled (candidate message filled)
    ]
  where
    candidates : List MailIdentity
    candidates = identities_for_account u identities account

    candidate :
        (target : Option ReplyTarget)
        → no_identities (identities_for_account u identities account) ≡ false
        → IsChoice account identities (
            reply_candidate u
              (identities_for_account u identities account)
              target
              (head? (identities_for_account u identities account)))
    candidate none filled =
        head?-IsChoice account identities candidates (candidates_lem u account identities d) filled
    candidate (some target) filled =
        or_else-IsChoice account identities (addressed u candidates target.to) _
          (λ i.
            find?-All _ (λ (x : MailIdentity). contains (address_set u target.to) (u.lower x.email))
              candidates i (candidates_lem u account identities d))
          (or_else-IsChoice account identities (addressed u candidates target.cc) _
            (λ i.
              find?-All _
                (λ (x : MailIdentity). contains (address_set u target.cc) (u.lower x.email))
                candidates i (candidates_lem u account identities d))
            (head?-IsChoice account identities candidates (candidates_lem u account identities d)
              filled))

number_le :
    (u : Unicode) (x y : MailIdentity)
    → not_gt (compare_identities u x y) ≡ true
    → x.is_default ≡ false
    → y.is_default ≡ false
number_le u x y h e = ground arith

-- Sorted identities without a default at their head have none.
sorted_heads :
    (u : Unicode) (xs : List MailIdentity)
    → IsSorted (compare_identities u) xs
    → (i : MailIdentity) → head? xs ≡ some i
    → i.is_default ≡ false
    → All (λ (x : MailIdentity). x.is_default ≡ false) xs
sorted_heads u [] h i e k = tt
sorted_heads u (x ∷ xs) (h, hs) i e k =
    let same : x ≡ i = ground arith in
    let second : x.is_default ≡ false = rw same k in
    (second, All-map (λ (y : MailIdentity) le. number_le u x y le second) xs h)

any_default-none :
    (xs : List MailIdentity)
    → All (λ (x : MailIdentity). x.is_default ≡ false) xs
    → any (λ (x : MailIdentity). x.is_default) xs ≡ false
any_default-none [] h = refl
any_default-none (x ∷ xs) (h, hs) = rw (h, any_default-none xs hs) refl

any_of_found :
    (account : Text) (i : MailIdentity) (xs : List MailIdentity)
    → find? (has_identity_id i.id) xs ≡ some i
    → i.account_id ≡ account
    → any (of_account account) xs ≡ true
any_of_found account i [] h e = absurd (cc)
any_of_found account i (x ∷ xs) h e = elim (Bool-cases (has_identity_id i.id x)) [
  | inl same ↦ ground (arith, text_beq_iff x.account_id account)
  | inr other ↦ rw (any_of_found account i xs (rw other at h) e) (ground arith)
]

-- In a list with identifiers of their own and one default for every account that has identities,
-- the identity that an account falls back to is marked as its default.
pub default_identity_for_lem :
    (u : Unicode) (identities : List MailIdentity) (account : Text) (i : MailIdentity)
    → IsIdentityList identities
    → default_identity_for u identities account ≡ some i
    → i.is_default ≡ true
unfolding default_identity_for identities_for_account sort_identities
default_identity_for_lem u identities account i inv h = elim (Bool-cases i.is_default) [
  | inl first ↦ first
  | inr second ↦ absurd (
      let chosen = filter (of_account account) identities in
      let sorted = sort (compare_identities u) chosen in
      let unmarked : any (λ (x : MailIdentity). x.is_default) sorted ≡ false =
        any_default-none sorted (
          sorted_heads u sorted
            (sort-IsSorted (compare_identities u) (compare_identities-IsComparator u) chosen) i h
            second) in
      let (mine, found) =
        (subst (IsChoice account identities) h (
          head?-IsChoice account identities sorted
            (candidates_lem u account identities inv.distinct) (filled sorted h))) in
      ground (
        arith,
        unmarked,
        any-sort (compare_identities u) (λ (x : MailIdentity). x.is_default) chosen,
        any_default account identities,
        inv.one_default account,
        any_of_found account i identities found mine,
      ))
]
  where
    filled : (xs : List MailIdentity) → head? xs ≡ some i → no_identities xs ≡ false
    filled [] e = absurd (cc)
    filled (x ∷ xs) e = refl
