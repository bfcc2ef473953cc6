-- ===== src/Identities/Signature.antt =====
-- src/shared/identities.ts: the signature in the body of a message. Positions of quoted material
-- count units from the start of the body, as its callers give them.
use material_email.Prelude.{
  ℕ, suc, ◌+◌, Bool, true, false, not, ◌||◌, Option, none, some, List, [], ◌∷◌, ◌++◌, find?, take,
  drop, length, ltb, if◌then◌else◌,
}
use material_email.Prelude.Text.{
  Text, text, text_beq, is_empty, trim, trim_end, starts_with, includes, split,
}
use material_email.Runtime.{Unicode}
use material_email.Mail.{Address, ComposeDraft}
use material_email.Identities.Normal.{MailIdentity, SignaturePlacement, below_quote, below_body}

abbrev signature_separator : Text
signature_separator = text "-- "

abbrev pub signature_block : Text → Text
signature_block signature = (0x0a ∷ signature_separator) ++ (0x0a ∷ signature)

abbrev pub next_index : Option ℕ → Option ℕ
next_index none = none
next_index (some i) = some (suc i)

-- `text.indexOf(needle)`, where the needle is not empty
unfoldable pub index_of : Text → Text → Option ℕ
unfolding starts_with
index_of [] needle = if starts_with [] needle then some 0 else none
index_of (c ∷ s) needle =
    let rest = next_index (index_of s needle) in if starts_with (c ∷ s) needle then some 0 else rest

abbrev pub or_index : Option ℕ → Bool → Option ℕ
or_index (some i) here = some i
or_index none true = some 0
or_index none false = none

-- `text.lastIndexOf(needle)`
unfoldable pub last_index_of : Text → Text → Option ℕ
unfolding starts_with
last_index_of [] needle = or_index none (starts_with [] needle)
last_index_of (c ∷ s) needle =
    or_index (next_index (last_index_of s needle)) (starts_with (c ∷ s) needle)

abbrev pub cut : Text → Text → Option ℕ → Text
cut body block none = body
cut body block (some i) = take i body ++ drop (i + length block) body

abbrev pub cut_to_end : Text → Option ℕ → Text
cut_to_end body none = body
cut_to_end body (some i) = take i body

unfoldable pub strip_signature : Text → Option Text → Text
unfolding last_index_of trim
strip_signature body none = cut_to_end body (last_index_of body (signature_block []))
strip_signature body (some previous_signature) =
    let previous = trim previous_signature in
    if is_empty previous
    then body
    else cut body (signature_block previous) (last_index_of body (signature_block previous))

pub record SignatureApplication : Type 0 where
  pub text : Text
  pub applied : Bool

pub record RecoveredSignaturePlacement : Type 0 where
  pub signature : Text
  pub quote_marker : Option Text

-- the best match so far: its signature, and where its block is
pub record FoundSignature : Type 0 where
  pub signature : Text
  pub index : Option ℕ

abbrev nothing_recovered : RecoveredSignaturePlacement
nothing_recovered = record { signature = []; quote_marker = none }

-- the end of `recoverSignaturePlacement`, after its loop
abbrev recovered : Text → FoundSignature → Option ℕ → RecoveredSignaturePlacement
recovered body found none = nothing_recovered
recovered body found (some index) = record {
  signature = found.signature;
  quote_marker =
      find? (λ line. not (is_empty (trim line)))
        (split 0x0a (drop (index + length (signature_block found.signature)) body));
}

abbrev longer : FoundSignature → Text → ℕ → FoundSignature
longer found signature index =
    if ltb (length found.signature) (length signature)
    then record { signature = signature; index = some index }
    else found

-- One turn of the loop: `none` where it returns at once, as the block stands twice.
abbrev recover_step : Text → FoundSignature → Text → Option ℕ → Option FoundSignature
recover_step body found signature none = some found
recover_step body found signature (some index) =
    if includes (drop (index + length (signature_block signature)) body) (signature_block signature)
    then none
    else some (longer found signature index)

abbrev pub recover_turn : Text → FoundSignature → MailIdentity → Option FoundSignature
recover_turn body found identity =
    let signature = trim identity.signature in
    if is_empty signature
    then some found
    else recover_step body found signature (index_of body (signature_block signature))

unfoldable pub recover_loop :
    Text → Option FoundSignature → List MailIdentity → Option FoundSignature
unfolding index_of trim includes
recover_loop body none identities = none
recover_loop body (some found) [] = some found
recover_loop body (some found) (identity ∷ identities) =
    recover_loop body (recover_turn body found identity) identities

abbrev recovered_or_nothing : Text → Option FoundSignature → RecoveredSignaturePlacement
recovered_or_nothing body none = nothing_recovered
recovered_or_nothing body (some found) = recovered body found found.index

unfoldable pub recover_signature_placement : Text → List MailIdentity → RecoveredSignaturePlacement
unfolding recover_loop split trim
recover_signature_placement body identities =
    recovered_or_nothing body
      (recover_loop body (some record { signature = []; index = none }) identities)

-- `null`, a number or a string
pub data QuotePosition : Type 0 where
  no_quote : QuotePosition
  at_index : ℕ → QuotePosition
  at_line : Text → QuotePosition

unfoldable pub quote_index_in : Text → QuotePosition → Option ℕ
unfolding index_of
quote_index_in stripped no_quote = none
quote_index_in stripped (at_index index) = if ltb (length stripped) index then none else some index
quote_index_in stripped (at_line line) = index_of stripped line

abbrev pub signature_of : Option MailIdentity → Text
signature_of none = []
signature_of (some identity) = trim identity.signature

abbrev pub is_below : SignaturePlacement → Bool
is_below below_quote = true
is_below below_body = false

abbrev is_below_quote : Option MailIdentity → Bool
is_below_quote none = false
is_below_quote (some identity) = is_below identity.signature_placement

abbrev pub place_block : Text → Text → Bool → Option ℕ → Text
place_block stripped block true quote_index = stripped ++ block
place_block stripped block false none = stripped ++ block
place_block stripped block false (some index) =
    trim_end (take index stripped) ++ (block ++ (text "\n\n" ++ drop index stripped))

-- what `applySignature` does with the body that has no signature any more
unfoldable pub sign_stripped : Text → Option MailIdentity → QuotePosition → SignatureApplication
unfolding quote_index_in trim
sign_stripped stripped identity quoted_from =
    let signature = signature_of identity in
    if is_empty signature then record { text = stripped; applied = false } else record {
      text =
          place_block stripped (signature_block signature) (is_below_quote identity)
            (quote_index_in stripped quoted_from);
      applied = true;
    }

unfoldable pub apply_signature :
    Text → Option MailIdentity → QuotePosition → Option Text → SignatureApplication
unfolding strip_signature sign_stripped
apply_signature body identity quoted_from previous_signature =
    sign_stripped (strip_signature body previous_signature) identity quoted_from

unfoldable pub apply_identity_to_draft :
    ComposeDraft → Option MailIdentity → QuotePosition → Option Text → ComposeDraft
unfolding apply_signature
apply_identity_to_draft draft identity quoted_from previous_signature = record draft {
  text = (apply_signature draft.text identity quoted_from previous_signature).text;
}

abbrev pub identity_sender : MailIdentity → Address
identity_sender identity = record { name = identity.display_name; address = identity.email }

unfoldable pub identity_reply_to : Unicode → MailIdentity → Option Address
unfolding trim text_beq
identity_reply_to u identity =
    let reply_to = trim identity.reply_to in
    if is_empty reply_to || text_beq (u.lower reply_to) (u.lower (trim identity.email))
    then none
    else some record { name = identity.display_name; address = reply_to }
