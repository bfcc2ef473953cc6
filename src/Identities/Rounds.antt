-- ===== src/Identities/Rounds.antt =====
-- Applying a signature and taking it away again (applySignature of src/shared/identities.ts).
use material_email.Prelude.{
  ℕ, zero, suc, ◌+◌, ◌<◌, ◌≤◌, ◌≡◌, refl, ap, ◌∙◌, true, false, Option, none, some, [], ◌∷◌, ◌++◌,
  arith, take, drop, length, length-append, ◌⊎◌, Bool-cases, inl, inr, nat_beq_iff,
}
use material_email.Prelude.Text.{Text, is_empty, trim, starts_with}
use material_email.Identities.Normal.{MailIdentity, SignaturePlacement, below_quote, below_body}
use material_email.Identities.Signature.{
  signature_block, last_index_of, cut, strip_signature, QuotePosition, no_quote, quote_index_in,
  signature_of, apply_signature, sign_stripped, place_block, is_below,
}

starts_with-short : (s t : Text) → length s < length t → starts_with s t ≡ false
unfolding starts_with
starts_with-short [] [] h = absurd (omega (arith, h))
starts_with-short [] (d ∷ t) h = refl
starts_with-short (c ∷ s) [] h = absurd (omega (arith, h))
starts_with-short (c ∷ s) (d ∷ t) h = rw (starts_with-short s t (omega (arith, h))) (ground arith)

last_index_of-short : (s t : Text) → length s < length t → last_index_of s t ≡ none
unfolding last_index_of
last_index_of-short [] t h = rw (starts_with-short [] t h) refl
last_index_of-short (c ∷ s) t h =
    rw (last_index_of-short s t (omega (arith, h)), starts_with-short (c ∷ s) t h) refl

starts_with_self : (s : Text) → starts_with s s ≡ true
unfolding starts_with
starts_with_self [] = refl
starts_with_self (c ∷ s) = rw ((nat_beq_iff c c).1 refl, starts_with_self s) refl

-- A text at the end of another is found there last.
last_index_of-append :
    (s : Text) (c : ℕ) (t : Text) → last_index_of (s ++ c ∷ t) (c ∷ t) ≡ some (length s)
unfolding last_index_of
last_index_of-append [] c t =
    rw (last_index_of-short t (c ∷ t) (omega arith), starts_with_self (c ∷ t)) refl
last_index_of-append (d ∷ s) c t = rw (last_index_of-append s c t) refl

take-append : (s t : Text) → take (length s) (s ++ t) ≡ s
take-append [] t = refl
take-append (c ∷ s) t = ap (λ l. c ∷ l) (take-append s t)

drop_all : (s : Text) (n : ℕ) → length s ≤ n → drop n s ≡ []
drop_all [] zero h = refl
drop_all [] (suc n) h = refl
drop_all (c ∷ s) zero h = absurd (omega (arith, h))
drop_all (c ∷ s) (suc n) h = drop_all s n (omega (arith, h))

append_nil : (s : Text) → s ++ [] ≡ s
append_nil [] = refl
append_nil (c ∷ s) = ap (λ l. c ∷ l) (append_nil s)

-- The block of a signature at the end of a body is what is cut off.
strip_signature-append :
    (body signature : Text)
    → is_empty (trim signature) ≡ false
    → strip_signature (body ++ signature_block (trim signature)) (some signature) ≡ body
unfolding strip_signature
strip_signature-append body signature h = rw h (
    ap (cut (body ++ block) block) (last_index_of-append body 0x0a (rest_of (trim signature)))
    ∙ rw (take-append body block) (
        ap (λ l. body ++ l)
          (drop_all (body ++ block) (length body + length block)
            (omega (arith, length-append body block)))
        ∙ append_nil body))
  where
    block : Text
    block = signature_block (trim signature)

    rest_of : Text → Text
    rest_of signature = 0x2d ∷ 0x2d ∷ 0x20 ∷ 0x0a ∷ signature

-- where the block goes to the end of the body
abbrev pub IsAppended : Option MailIdentity → QuotePosition → Type 0
IsAppended none quoted_from = Unit
IsAppended (some identity) quoted_from =
    (identity.signature_placement ≡ below_quote) ⊎ (quoted_from ≡ no_quote)

-- the signature that an identity has, as the composer remembers it
abbrev pub raw_signature : Option MailIdentity → Text
raw_signature none = []
raw_signature (some identity) = identity.signature

text_of-apply_signature :
    (body : Text) (identity : Option MailIdentity) (quoted_from : QuotePosition)
    → IsAppended identity quoted_from
    → is_empty (signature_of identity) ≡ false
    → (apply_signature body identity quoted_from (some [])).text
      ≡ body ++ signature_block (signature_of identity)
unfolding apply_signature sign_stripped strip_signature trim quote_index_in
text_of-apply_signature body none quoted_from appended h = absurd (cc)
text_of-apply_signature body (some identity) quoted_from (inl below) h = rw h (rw below refl)
text_of-apply_signature body (some identity) quoted_from (inr no_quotes) h =
    rw h (rw no_quotes (at_end identity.signature_placement))
  where
    at_end :
        (placement : SignaturePlacement)
        → place_block body (signature_block (trim identity.signature)) (is_below placement) none
          ≡ body ++ signature_block (trim identity.signature)
    at_end below_quote = refl
    at_end below_body = refl

unsigned :
    (body : Text) (identity : Option MailIdentity) (quoted_from : QuotePosition)
    → IsAppended identity quoted_from
    → strip_signature
        (apply_signature body identity quoted_from (some [])).text
        (some (raw_signature identity))
      ≡ body
unsigned body none quoted_from appended =
    unfold apply_signature in unfold sign_stripped in unfold strip_signature in unfold trim in refl
unsigned body (some identity) quoted_from appended =
    elim (Bool-cases (is_empty (trim identity.signature))) [
      | inl blank ↦ blank_signature blank
      | inr signed ↦
          rw (text_of-apply_signature body (some identity) quoted_from appended signed)
            (strip_signature-append body identity.signature signed)
    ]
  where
    blank_signature :
        is_empty (trim identity.signature) ≡ true
        → strip_signature
            (apply_signature body (some identity) quoted_from (some [])).text
            (some identity.signature)
          ≡ body
    blank_signature blank =
        unfold apply_signature in unfold sign_stripped in unfold strip_signature in rw blank refl

-- If the first identity's signature goes to the end of the body, then applying it to a body and
-- after it the signature of another identity, with the first one as the previous signature and
-- wherever the second one goes, is applying the second one to the body alone.
pub apply_signature_again :
    (body : Text) (first second : Option MailIdentity) (quoted_first quoted_second : QuotePosition)
    → IsAppended first quoted_first
    → apply_signature
        (apply_signature body first quoted_first (some [])).text
        second
        quoted_second
        (some (raw_signature first))
      ≡ apply_signature body second quoted_second (some [])
apply_signature_again body first second quoted_first quoted_second appended =
    unfold apply_signature in
    ap (λ stripped. sign_stripped stripped second quoted_second)
      (unsigned body first quoted_first appended)
