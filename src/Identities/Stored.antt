-- ===== src/Identities/Stored.antt =====
-- src/main/identity-store.ts: the identities of the stored state. An older state lacks them.
use material_email.Prelude.{
  true, not, Option, none, some, List, [], map, filter, find?, any, if◌then◌else◌,
}
use material_email.Prelude.Text.{Text, is_empty}
use material_email.Runtime.{Unicode}
use material_email.Mail.{ComposeDraft}
use material_email.Identities.Normal.{
  MailIdentity, MailIdentityInput, Result, ok, ◌>>=◌, identity_name_limit, normalize_identity_line,
}
use material_email.Identities.Choice.{
  has_identity_id, of_account, with_default, sort_identities, identities_for_account,
  build_identity, remove_identity, resolve_identity, found_identity,
}

-- The two fields of a stored account that seed its identity.
pub record AccountSeed : Type 0 where
  pub id : Text
  pub display_name : Text
  pub email : Text

abbrev pub identities_of : Option (List MailIdentity) → List MailIdentity
identities_of none = []
identities_of (some identities) = identities

abbrev pub set_default : Text → Text → MailIdentity → MailIdentity
set_default account id candidate =
    if of_account account candidate
    then with_default (has_identity_id id candidate) candidate
    else candidate

unfoldable pub promote_identity_to_default : List MailIdentity → Text → Result (List MailIdentity)
promote_identity_to_default identities id = do
  identity ← found_identity (find? (has_identity_id id) identities)
  ok (map (set_default identity.account_id id) identities)

unfoldable pub forget_account_identities : List MailIdentity → Text → List MailIdentity
forget_account_identities identities account =
    filter (λ identity. not (of_account account identity)) identities

module _ (u : Unicode) where
  unfoldable pub list_account_identities : Option (List MailIdentity) → Text → List MailIdentity
  unfolding identities_for_account
  list_account_identities stored account = identities_for_account u (identities_of stored) account

  -- The identities afterwards; what `upsertIdentity` returns are these in order, and likewise below.
  unfoldable pub upsert_identity :
      Option (List MailIdentity) → MailIdentityInput → Text → Result (List MailIdentity)
  unfolding build_identity
  upsert_identity stored input fresh = build_identity u (identities_of stored) input fresh

  unfoldable pub delete_identity : Option (List MailIdentity) → Text → Result (List MailIdentity)
  unfolding remove_identity
  delete_identity stored id = remove_identity u (identities_of stored) id

  unfoldable pub identity_for_draft :
      Option (List MailIdentity) → ComposeDraft → Option MailIdentity
  unfolding resolve_identity
  identity_for_draft stored draft =
      resolve_identity u (identities_of stored) draft.account_id draft.identity_id

  unfoldable pub list_identities : Option (List MailIdentity) → List MailIdentity
  unfolding sort_identities
  list_identities stored = sort_identities u (identities_of stored)

  abbrev pub seed_input : AccountSeed → MailIdentityInput
  seed_input account =
      let name = normalize_identity_line u account.display_name identity_name_limit in
      record {
        id = none;
        account_id = account.id;
        display_name = if is_empty name then account.email else name;
        email = account.email;
        reply_to = none;
        organization = none;
        signature = none;
        signature_placement = none;
        is_default = some true;
      }

  -- The identities afterwards; the identity that `seedAccountIdentity` returns heads those of the account.
  unfoldable pub seed_account_identity :
      List MailIdentity → AccountSeed → Text → Result (List MailIdentity)
  unfolding build_identity
  seed_account_identity identities account fresh =
      if any (of_account account.id) identities
      then ok identities
      else build_identity u identities (seed_input account) fresh
