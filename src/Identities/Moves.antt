-- ===== src/Identities/Moves.antt =====
-- buildIdentity (src/shared/identities.ts) with an identifier of another account's identity, and
-- the choice of the identity that a draft is sent from.
use material_email.Prelude.{
  ◌≡◌, ◌≢◌, refl, sym, subst, ◌∙◌, true, false, not, some, List, arith, any, ltb, AllPairs-filter,
  Bool-cases, inl, inr,
}
use material_email.Prelude.Text.{Text, text_beq, text_beq_iff, text_beq_refl}
use material_email.Runtime.{Unicode}
use material_email.Identities.Normal.{MailIdentity, MailIdentityInput, ok}
use material_email.Identities.Choice.{
  has_identity_id, of_account, identities_for_account, place_identity, settle_default,
  built_identity, build_identity, find_given, given_identity_id,
}
use material_email.Identities.Defaults.{HasDistinctIdentities, defaults, without, found_counts}
use material_email.Identities.Invariant.{IsIdentityList, any_default, promote_first_lem}
use material_email.Identities.Kept.{
  joined, joined-HasDistinct, defaults-joined, any-joined, without-apart,
}
use material_email.Identities.Edits.{build_identity-placed, find_given-found}

settle_default_elsewhere :
    (u : Unicode) (a b : Text) (next : List MailIdentity)
    → HasDistinctIdentities next
    → any (of_account a) next ≡ true
    → text_beq a b ≡ false
    → defaults b (settle_default u a next) ≡ defaults b next
unfolding settle_default
settle_default_elsewhere u a b next d has ne = elim (Bool-cases (ltb 0 (defaults a next))) [
  | inl some_default ↦ rw (any_default a next, some_default) refl
  | inr no_default ↦
      let (d', counts) = promote_first_lem u a next d (ground (arith, no_default)) has in
      rw (any_default a next, no_default) ((counts b).0 ∙ rw ne refl)
]

-- If the input names an identity that is the default of another account than the account that the
-- input names, in a list with one default for every account that has identities, then the saved
-- list has no default for that other account.
pub build_identity_of_other_account :
    (u : Unicode) (existing next : List MailIdentity) (input : MailIdentityInput) (fresh : Text)
    (c : MailIdentity)
    → IsIdentityList existing
    → find_given existing (given_identity_id input.id) ≡ some c
    → c.is_default ≡ true
    → c.account_id ≢ input.account_id
    → build_identity u existing input fresh ≡ ok next
    → defaults c.account_id next ≡ 0
unfolding built_identity place_identity
build_identity_of_other_account u existing next input fresh c inv found first other h =
    subst (λ l. defaults c.account_id l ≡ 0) (build_identity-placed u existing next input fresh h)
      (settle_default_elsewhere u input.account_id c.account_id (joined rest i)
          (joined-HasDistinct rest i
            (AllPairs-filter (λ (x : MailIdentity) y. y.id ≢ x.id)
              (λ x. not (has_identity_id i.id x)) existing inv.distinct)
            (without-apart i.id existing))
          (any-joined rest i) (ground (arith, text_beq_iff input.account_id c.account_id))
        ∙ (defaults-joined c.account_id rest i other).0
        ∙ none_left)
  where
    i : MailIdentity
    i =
        built_identity u (identities_for_account u existing input.account_id)
          (find_given existing (given_identity_id input.id)) input fresh

    rest : List MailIdentity
    rest = without i.id existing

    same_id : i.id ≡ c.id
    same_id = rw found refl

    none_left : defaults c.account_id (without i.id existing) ≡ 0
    none_left = rw same_id (
        let (p, q, r, s) = found_counts c.account_id c.id c existing inv.distinct (
          sym (find_given-found existing (given_identity_id input.id) c inv.distinct found)
          ∙ found) in
        ground (arith, p, inv.one_default c.account_id, first, text_beq_refl c.account_id))
