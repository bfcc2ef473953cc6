-- ===== src/Identities/Choice.antt =====
-- src/shared/identities.ts: the identities of an account, and the one that a message is sent from.
use material_email.Prelude.{
  ℕ, suc, max, Bool, true, false, not, ◌&&◌, ◌||◌, Option, none, some, List, [], ◌∷◌, ◌++◌, map,
  filter, find?, any, contains, length, leb, sort, compare, Ordering, then_compare, if◌then◌else◌,
}
use material_email.Prelude.Text.{Text, text_beq, text_eq, is_empty, trim}
use material_email.Runtime.{Unicode}
use material_email.Mail.{Address}
use material_email.Identities.Normal.{
  MailIdentity, MailIdentityInput, SignaturePlacement, below_body, not_found, limit_reached,
  last_default, Result, ok, err, ◌>>=◌, ◌>>◌, throw_if, identity_limit_per_account,
  identity_name_limit, identity_organization_limit, identity_signature_limit,
  normalize_identity_line, normalize_identity_text, validate_identity_input, or_empty,
}

abbrev pub has_identity_id : Text → MailIdentity → Bool
has_identity_id id identity = text_beq identity.id id

abbrev pub of_account : Text → MailIdentity → Bool
of_account account identity = text_beq identity.account_id account

-- `Number(flag)`
abbrev pub number : Bool → ℕ
number true = 1
number false = 0

abbrev pub with_default : Bool → MailIdentity → MailIdentity
with_default flag identity = record identity { is_default = flag }

-- `identity => identity.id === id ? { ...identity, isDefault: true } : identity`
abbrev pub promoted : Text → MailIdentity → MailIdentity
promoted id identity = if has_identity_id id identity then with_default true identity else identity

-- `item => item.accountId === account ? { ...item, isDefault: false } : item`
abbrev pub demoted : Text → MailIdentity → MailIdentity
demoted account identity =
    if of_account account identity then with_default false identity else identity

-- One more than the highest ordinal, which counts as -1 where there is no identity.
unfoldable pub next_identity_ordinal : List MailIdentity → ℕ
next_identity_ordinal [] = 0
next_identity_ordinal (identity ∷ identities) =
    max (suc identity.ordinal) (next_identity_ordinal identities)

abbrev pub head? : List MailIdentity → Option MailIdentity
head? [] = none
head? (identity ∷ identities) = some identity

abbrev pub no_identities : List MailIdentity → Bool
no_identities [] = true
no_identities (identity ∷ identities) = false

-- an identifier that is not empty
abbrev pub given_identity_id : Option Text → Option Text
given_identity_id none = none
given_identity_id (some id) = if is_empty id then none else some id

abbrev pub find_given : List MailIdentity → Option Text → Option MailIdentity
find_given identities none = none
find_given identities (some id) = find? (has_identity_id id) identities

-- the two guards of `buildIdentity` after the validation
abbrev pub build_guard : List MailIdentity → Option Text → Option MailIdentity → Result (Unit {0})
build_guard for_account given (some current) = ok tt
build_guard for_account (some id) none = err not_found
build_guard for_account none none =
    throw_if (leb identity_limit_per_account (length for_account)) limit_reached

abbrev pub identity_id_or : Option MailIdentity → Text → Text
identity_id_or none fresh = fresh
identity_id_or (some current) fresh = current.id

abbrev identity_ordinal_or : Option MailIdentity → ℕ → ℕ
identity_ordinal_or none fresh = fresh
identity_ordinal_or (some current) fresh = current.ordinal

abbrev placement_or : Option SignaturePlacement → Option MailIdentity → SignaturePlacement
placement_or (some placement) current = placement
placement_or none none = below_body
placement_or none (some current) = current.signature_placement

abbrev pub wanted_default : Option Bool → Option MailIdentity → Bool → Bool
wanted_default (some flag) current first = flag
wanted_default none (some current) first = current.is_default
wanted_default none none first = first

-- `if (first) return next.map(…); return next;`
abbrev pub promote_first : List MailIdentity → Option MailIdentity → List MailIdentity
promote_first identities none = identities
promote_first identities (some first) = map (promoted first.id) identities

abbrev pub found_identity : Option MailIdentity → Result MailIdentity
found_identity none = err not_found
found_identity (some identity) = ok identity

abbrev pub or_else : Option MailIdentity → Option MailIdentity → Option MailIdentity
or_else none second = second
or_else (some identity) second = some identity

-- the recipients of the message that is answered, where there is one
pub record ReplyTarget : Type 0 where
  pub to : List Address
  pub cc : List Address

module _ (u : Unicode) where
  abbrev pub compare_identities : MailIdentity → MailIdentity → Ordering
  compare_identities left right =
      then_compare (compare (number right.is_default) (number left.is_default)) (
        then_compare (compare left.ordinal right.ordinal) (
          then_compare (u.locale_compare left.display_name right.display_name)
            (u.locale_compare left.id right.id)))

  unfoldable pub sort_identities : List MailIdentity → List MailIdentity
  sort_identities identities = sort compare_identities identities

  unfoldable pub identities_for_account : List MailIdentity → Text → List MailIdentity
  unfolding sort_identities
  identities_for_account identities account =
      sort_identities (filter (of_account account) identities)

  unfoldable pub default_identity_for : List MailIdentity → Text → Option MailIdentity
  unfolding identities_for_account
  default_identity_for identities account = head? (identities_for_account identities account)

  -- the identity that `buildIdentity` makes
  unfoldable pub built_identity :
      List MailIdentity → Option MailIdentity → MailIdentityInput → Text → MailIdentity
  unfolding normalize_identity_line normalize_identity_text next_identity_ordinal trim
  built_identity for_account current input fresh = record {
    id = identity_id_or current fresh;
    account_id = input.account_id;
    display_name = normalize_identity_line u input.display_name identity_name_limit;
    email = trim input.email;
    reply_to = trim (or_empty input.reply_to);
    organization =
        normalize_identity_line u (or_empty input.organization) identity_organization_limit;
    signature = normalize_identity_text u (or_empty input.signature) identity_signature_limit;
    signature_placement = placement_or input.signature_placement current;
    is_default =
        if no_identities for_account
        then true
        else wanted_default input.is_default current (no_identities for_account);
    ordinal = identity_ordinal_or current (next_identity_ordinal for_account);
  }

  -- Where no identity of the account is its default, the first one becomes it.
  unfoldable pub settle_default : Text → List MailIdentity → List MailIdentity
  unfolding sort_identities
  settle_default account next =
      let account_identities = filter (of_account account) next in
      if not (any (λ (item : MailIdentity). item.is_default) account_identities)
      then promote_first next (head? (sort_identities account_identities))
      else next

  -- the list that holds the new identity, with exactly one default for its account
  unfoldable pub place_identity : List MailIdentity → MailIdentity → List MailIdentity
  unfolding settle_default
  place_identity existing identity =
      let others = filter (λ item. not (has_identity_id identity.id item)) existing in
      let normalized =
        if identity.is_default then map (demoted identity.account_id) others else others in
      settle_default identity.account_id (normalized ++ identity ∷ [])

  -- `fresh` is what `newId()` gives.
  unfoldable pub build_identity :
      List MailIdentity → MailIdentityInput → Text → Result (List MailIdentity)
  unfolding validate_identity_input identities_for_account built_identity place_identity
  build_identity existing input fresh =
      let for_account = identities_for_account existing input.account_id in
      let given = given_identity_id input.id in
      let current = find_given existing given in
      do
        validate_identity_input u input
        build_guard for_account given current
        ok (place_identity existing (built_identity for_account current input fresh))

  unfoldable pub remove_identity : List MailIdentity → Text → Result (List MailIdentity)
  unfolding sort_identities
  remove_identity existing id = do
    identity ← found_identity (find? (has_identity_id id) existing)
    let remaining = filter (λ candidate. not (has_identity_id id candidate)) existing
    let siblings = filter (of_account identity.account_id) remaining
    throw_if (identity.is_default && no_identities siblings) last_default
    ok (
        if not identity.is_default || no_identities siblings
        then remaining
        else promote_first remaining (head? (sort_identities siblings)))

  unfoldable pub address_set : List Address → List Text
  unfolding trim
  address_set addresses =
      filter (λ address. not (is_empty address))
        (map (λ (entry : Address). u.lower (trim entry.address)) addresses)

  -- the identity that one list of recipients names
  abbrev pub addressed : List MailIdentity → List Address → Option MailIdentity
  addressed candidates bucket =
      find? (λ (identity : MailIdentity). contains (address_set bucket) (u.lower identity.email))
        candidates

  abbrev pub reply_candidate :
      List MailIdentity → Option ReplyTarget → Option MailIdentity → Option MailIdentity
  reply_candidate candidates none fallback = head? candidates
  reply_candidate candidates (some message) fallback =
      or_else (addressed candidates message.to) (or_else (addressed candidates message.cc) fallback)

  unfoldable pub identity_for_reply :
      List MailIdentity → Text → Option ReplyTarget → Option MailIdentity
  unfolding identities_for_account default_identity_for address_set
  identity_for_reply identities account message =
      let candidates = identities_for_account identities account in
      if no_identities candidates
      then none
      else reply_candidate candidates message (default_identity_for identities account)

  unfoldable pub resolve_identity : List MailIdentity → Text → Option Text → Option MailIdentity
  unfolding identities_for_account default_identity_for
  resolve_identity identities account id =
      let candidates = identities_for_account identities account in
      if no_identities candidates
      then none
      else or_else (find_given candidates (given_identity_id id))
          (default_identity_for identities account)
