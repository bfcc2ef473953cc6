-- ===== src/Tests/Identities.antt =====
-- The theorems about identities at small values.
use material_email.Prelude.{
  String, ◌&&◌, ◌||◌, suc, if◌then◌else◌, ℕ, ◌≡◌, ◌≢◌, ◌≤◌, refl, Bool, true, false, Option, none,
  some, List, [], ◌∷◌, arith, All, any, length, inr,
}
use material_email.Prelude.Text.{Text, text, text_beq, text_beq_iff}
use material_email.Identities.Normal.{
  MailIdentity, MailIdentityInput, below_body, ok, normalize_identity_line,
}
use material_email.Identities.Choice.{
  build_identity, remove_identity, resolve_identity, identity_for_reply, ReplyTarget,
  default_identity_for,
}
use material_email.Identities.Signature.{no_quote, at_line, apply_signature}
use material_email.Identities.Defaults.{defaults}
use material_email.Identities.Invariant.{IsIdentityList}
use material_email.Identities.Edits.{IsIdentityListOf, remove_identity-IsIdentityListOf}
use material_email.Identities.Reached.{start, step, saved, Reached-IsIdentityList}
use material_email.Identities.Moves.{build_identity_of_other_account}
use material_email.Identities.Resolution.{
  IsChoice, resolve_identity-IsChoice, identity_for_reply-IsChoice, default_identity_for_lem,
}
use material_email.Identities.Lines.{IsHeaderUnit, normalize_identity_line_lem}
use material_email.Identities.Rounds.{raw_signature, apply_signature_again}
use material_email.Tests.Data.{ascii, unequal}

abbrev identity_at : String → String → Bool → ℕ → MailIdentity
identity_at id account is_default ordinal = record {
  id = text id;
  account_id = text account;
  display_name = text "Ann";
  email = text "ann@example.org";
  reply_to = [];
  organization = [];
  signature = text "Ann";
  signature_placement = below_body;
  is_default = is_default;
  ordinal = ordinal;
}

a_is_not_b : text "a" ≢ text "b"
unfolding text_beq
a_is_not_b = unequal (text "a") (text "b") refl

not_both : (account : Text) → (text_beq (text "a") account && text_beq (text "b") account) ≡ false
not_both account =
    ground (arith, text_beq_iff (text "a") account, text_beq_iff (text "b") account, a_is_not_b)

abbrev of_two_accounts : List MailIdentity
of_two_accounts =
    identity_at "i" "a" true 0 ∷ identity_at "j" "a" false 1 ∷ identity_at "k" "b" true 0 ∷ []

of_two_accounts-IsIdentityList : IsIdentityList of_two_accounts
unfolding text_beq
of_two_accounts-IsIdentityList = record {
  distinct = (
    (unequal (text "j") (text "i") refl, (unequal (text "k") (text "i") refl, tt)),
    ((unequal (text "k") (text "j") refl, tt), (tt, tt)),
  );
  one_default =
      λ account. two (text_beq (text "a") account) (text_beq (text "b") account) (not_both account);
}
  where
    two :
        (a b : Bool)
        → (a && b) ≡ false
        → (if a && true
            then suc (
                if a && false
                then suc (if b && true then 1 else 0)
                else (if b && true then 1 else 0))
            else (if a && false
                then suc (if b && true then 1 else 0)
                else (if b && true then 1 else 0)))
          ≡ (if a || (a || (b || false)) then 1 else 0)
    two true true h = absurd (cc)
    two true false h = refl
    two false true h = refl
    two false false h = refl

abbrev input_for : Option Text → String → MailIdentityInput
input_for id account = record {
  id = id;
  account_id = text account;
  display_name = text "Ann";
  email = text "ann@example.org";
  reply_to = none;
  organization = none;
  signature = some (text "Ann");
  signature_placement = none;
  is_default = none;
}

abbrev first_of : String → MailIdentity
first_of id = identity_at id "a" true 0

first_saved : build_identity ascii [] (input_for none "a") (text "i") ≡ ok (first_of "i" ∷ [])
unfolding build_identity material_email.Prelude.sort text_beq
first_saved = refl

Reached-IsIdentityList_example : IsIdentityList (first_of "i" ∷ [])
Reached-IsIdentityList_example =
    Reached-IsIdentityList ascii (first_of "i" ∷ [])
      (step start (saved (input_for none "a") (text "i") refl (λ c e. absurd (cc)) first_saved))

removed_first :
    remove_identity ascii of_two_accounts (text "i")
    ≡ ok (identity_at "j" "a" true 1 ∷ identity_at "k" "b" true 0 ∷ [])
unfolding remove_identity text_beq material_email.Prelude.sort
removed_first = refl

remove_identity-IsIdentityListOf_example :
    IsIdentityListOf of_two_accounts (identity_at "j" "a" true 1 ∷ identity_at "k" "b" true 0 ∷ [])
remove_identity-IsIdentityListOf_example =
    remove_identity-IsIdentityListOf ascii of_two_accounts
      (identity_at "j" "a" true 1 ∷ identity_at "k" "b" true 0 ∷ []) (text "i")
      of_two_accounts-IsIdentityList removed_first

-- the default of the account `a` goes to the account `b`
abbrev moved_to_b : List MailIdentity
moved_to_b =
    identity_at "j" "a" false 1 ∷ identity_at "k" "b" false 0 ∷ identity_at "i" "b" true 0 ∷ []

moved :
    build_identity ascii of_two_accounts (input_for (some (text "i")) "b") (text "l")
    ≡ ok moved_to_b
unfolding build_identity text_beq material_email.Prelude.sort
moved = refl

build_identity_of_other_account_example : defaults (text "a") moved_to_b ≡ 0
unfolding text_beq
build_identity_of_other_account_example =
    build_identity_of_other_account ascii of_two_accounts moved_to_b
      (input_for (some (text "i")) "b") (text "l") (identity_at "i" "a" true 0)
      of_two_accounts-IsIdentityList refl refl (unequal _ _ refl) moved

resolve_identity-IsChoice_example :
    IsChoice
      (text "a")
      of_two_accounts
      (resolve_identity ascii of_two_accounts (text "a") (some (text "k")))
resolve_identity-IsChoice_example =
    resolve_identity-IsChoice ascii of_two_accounts (text "a") (some (text "k"))
      of_two_accounts-IsIdentityList.distinct

abbrev asked : ReplyTarget
asked = record { to = record { name = []; address = text " ANN@example.org" } ∷ []; cc = [] }

identity_for_reply-IsChoice_example :
    IsChoice
      (text "b")
      of_two_accounts
      (identity_for_reply ascii of_two_accounts (text "b") (some asked))
identity_for_reply-IsChoice_example =
    identity_for_reply-IsChoice ascii of_two_accounts (text "b") (some asked)
      of_two_accounts-IsIdentityList.distinct

default_of_a :
    default_identity_for ascii of_two_accounts (text "a") ≡ some (identity_at "i" "a" true 0)
unfolding default_identity_for material_email.Prelude.sort text_beq
default_of_a = refl

default_identity_for_lem_example : (identity_at "i" "a" true 0).is_default ≡ true
default_identity_for_lem_example =
    default_identity_for_lem ascii of_two_accounts (text "a") (identity_at "i" "a" true 0)
      of_two_accounts-IsIdentityList default_of_a

abbrev two_lines : Text
two_lines = text "Ann\r\nBcc: all"

two_lines_folded : normalize_identity_line ascii two_lines 120 ≡ text "Ann Bcc: all"
unfolding normalize_identity_line
two_lines_folded = refl

normalize_identity_line_lem_example :
    All IsHeaderUnit (normalize_identity_line ascii two_lines 8)
    × (length (normalize_identity_line ascii two_lines 8) ≤ 8)
normalize_identity_line_lem_example = normalize_identity_line_lem ascii two_lines 8

apply_signature_again_example :
    apply_signature
      (apply_signature (text "Hi") (some (identity_at "i" "a" true 0)) no_quote (some [])).text
      (some (identity_at "j" "a" false 1))
      (at_line (text "i"))
      (some (raw_signature (some (identity_at "i" "a" true 0))))
    ≡ apply_signature
        (text "Hi")
        (some (identity_at "j" "a" false 1))
        (at_line (text "i"))
        (some [])
apply_signature_again_example =
    apply_signature_again (text "Hi") (some (identity_at "i" "a" true 0))
      (some (identity_at "j" "a" false 1)) no_quote (at_line (text "i")) (inr refl)
