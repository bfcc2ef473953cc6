-- ===== src/Identities/Normal.antt =====
-- src/shared/identities.ts: identities, and the normalisation and validation of their fields.
use material_email.Prelude.{
  ℕ, Bool, true, false, not, ◌&&◌, ◌||◌, Option, none, some, List, [], ◌∷◌, ◌++◌, all, any, take,
  filter, length, ltb, leb, nat_beq, if◌then◌else◌,
}
use material_email.Prelude.Text.{Text, is_empty, is_space, trim, split}
use material_email.Runtime.{Unicode}

abbrev pub identity_limit_per_account : ℕ
identity_limit_per_account = 20

abbrev pub identity_name_limit : ℕ
identity_name_limit = 120

abbrev pub identity_signature_limit : ℕ
identity_signature_limit = 8_192

abbrev pub identity_organization_limit : ℕ
identity_organization_limit = 200

pub data SignaturePlacement : Type 0 where
  below_body below_quote : SignaturePlacement

pub record MailIdentity : Type 0 where
  pub id : Text
  pub account_id : Text
  pub display_name : Text
  pub email : Text
  pub reply_to : Text
  pub organization : Text
  pub signature : Text
  pub signature_placement : SignaturePlacement
  pub is_default : Bool
  pub ordinal : ℕ

pub record MailIdentityInput : Type 0 where
  pub id : Option Text
  pub account_id : Text
  pub display_name : Text
  pub email : Text
  pub reply_to : Option Text
  pub organization : Option Text
  pub signature : Option Text
  pub signature_placement : Option SignaturePlacement
  pub is_default : Option Bool

pub data IdentityError : Type 0 where
  name_required email_invalid reply_to_invalid limit_reached not_found last_default : IdentityError

pub data Result {ℓ} (A : Type ℓ) : Type ℓ where
  ok : A → Result A
  err : IdentityError → Result A

infixl 5 ◌>>=◌ ◌>>◌
abbrev pub ◌>>=◌ {ℓ κ} : {A : Type ℓ} {B : Type κ} → Result A → (A → Result B) → Result B
ok value >>= next = next value
err error >>= next = err error

abbrev pub ◌>>◌ {ℓ} : {B : Type ℓ} → Result (Unit {0}) → Result B → Result B
first >> second = first >>= λ _. second

-- `if (test) throw error`
abbrev pub throw_if : Bool → IdentityError → Result (Unit {0})
throw_if true e = err e
throw_if false e = ok tt

-- `[^\s@<>,;]`
abbrev pub is_address_unit : ℕ → Bool
is_address_unit c = not (
    is_space c
    || nat_beq c 0x40
    || nat_beq c 0x3c
    || nat_beq c 0x3e
    || nat_beq c 0x2c
    || nat_beq c 0x3b)

-- A part of an address: one or more units.
abbrev is_part : Text → Bool
is_part s = not (is_empty s) && all is_address_unit s

abbrev has_two : List Text → Bool
has_two [] = false
has_two (part ∷ []) = false
has_two (part ∷ next ∷ parts) = true

-- two or more parts between dots
abbrev is_dotted : Text → Bool
is_dotted s = let labels = split 0x2e s in has_two labels && all is_part labels

-- a local part, one `@`, and a dotted domain
abbrev is_local_at_domain : List Text → Bool
is_local_at_domain [] = false
is_local_at_domain (local ∷ []) = false
is_local_at_domain (local ∷ domain ∷ []) = is_part local && is_dotted domain
is_local_at_domain (local ∷ domain ∷ other ∷ parts) = false

unfoldable pub is_mail_address : Text → Bool
unfolding trim split
is_mail_address value =
    let candidate = trim value in
    ltb 0 (length candidate)
    && leb (length candidate) 320
    && is_local_at_domain (split 0x40 candidate)

-- `replace(/\r\n?/gu, "\n")`; a line feed after the carriage return goes with it.
unfoldable pub unify_newlines : Bool → Text → Text
unify_newlines after_return [] = []
unify_newlines after_return (c ∷ s) =
    let rest = unify_newlines (nat_beq c 0x0d) s in
    if nat_beq c 0x0d
    then 0x0a ∷ rest
    else if after_return && nat_beq c 0x0a
    then rest
    else c ∷ rest

-- `CONTROL_CHARACTERS`
abbrev pub is_control : ℕ → Bool
is_control c = leb c 0x08 || (leb 0x0b c && leb c 0x1f) || nat_beq c 0x7f

-- white space with a line feed in it becomes a space
abbrev pub fold_run : Text → Text
fold_run run = if any (nat_beq 0x0a) run then 0x20 ∷ [] else run

-- `replace(/\s*\n\s*/gu, " ")`, with the white space read so far
unfoldable pub fold_newlines : Text → Text → Text
unfolding is_space
fold_newlines run [] = fold_run run
fold_newlines run (c ∷ s) =
    let rest = fold_newlines (if is_space c then run ++ c ∷ [] else []) s in
    if is_space c then rest else fold_run run ++ c ∷ rest

abbrev pub or_empty : Option Text → Text
or_empty none = []
or_empty (some s) = s

module _ (u : Unicode) where
  unfoldable pub normalize_identity_text : Text → ℕ → Text
  unfolding unify_newlines trim
  normalize_identity_text value limit =
      trim (take limit (filter (λ c. not (is_control c)) (unify_newlines false (u.nfkc value))))

  unfoldable pub normalize_identity_line : Text → ℕ → Text
  unfolding normalize_identity_text fold_newlines trim
  normalize_identity_line value limit =
      trim (take limit (fold_newlines [] (normalize_identity_text value limit)))

  unfoldable pub validate_identity_input : MailIdentityInput → Result (Unit {0})
  unfolding normalize_identity_line is_mail_address trim
  validate_identity_input input =
      let reply_to = trim (or_empty input.reply_to) in
      do
        throw_if (is_empty (normalize_identity_line input.display_name identity_name_limit))
            name_required
        throw_if (not (is_mail_address input.email)) email_invalid
        throw_if (not (is_empty reply_to) && not (is_mail_address reply_to)) reply_to_invalid
