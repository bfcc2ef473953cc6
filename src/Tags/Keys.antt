-- ===== src/Tags/Keys.antt =====
-- The storage keys of src/shared/message-tags.ts: their parts.
use material_email.Prelude.{
  ℕ, zero, suc, ◌+◌, ◌/◌, ◌%◌, ◌≡◌, ◌≢◌, sym, ap, ◌∙◌, false, Option, some, List, [], ◌∷◌, ◌++◌,
  arith, ltb, All-append, Bool-cases, inl, inr,
}
use material_email.Prelude.Text.{Text, text_eq, is_empty, join, split, decimal, decimal_fuel}
use material_email.Prelude.Text.Laws.{Lacks, split-append, split_of_Lacks, decimal_injective}
use material_email.Tags.Names.{
  key_separator, or_empty, message_tag_key, message_tag_key_account_id, message_tag_key_folder_path,
}

decimal_fuel-Lacks : (f n : ℕ) → Lacks key_separator (decimal_fuel f n)
unfolding decimal_fuel
decimal_fuel-Lacks zero n = (omega arith, tt)
decimal_fuel-Lacks (suc f) n = elim (Bool-cases (ltb n 10)) [
  | inl small ↦ rw small (omega arith, tt)
  | inr large ↦ rw large (
      All-append (λ c. c ≢ key_separator) (decimal_fuel f (n / 10)) ((n % 10 + 48) ∷ [])
        (decimal_fuel-Lacks f (n / 10)) (omega arith, tt))
]

split-message_tag_key :
    (account folder : Text) (uid : ℕ) (validity : Option Text)
    → Lacks key_separator account
    → Lacks key_separator folder
    → Lacks key_separator (or_empty validity)
    → split key_separator (message_tag_key account folder uid validity)
      ≡ account ∷ folder ∷ or_empty validity ∷ decimal uid ∷ []
unfolding message_tag_key join decimal
split-message_tag_key account folder uid validity a f v =
    let from_validity = or_empty validity ++ key_separator ∷ decimal uid in
    split-append key_separator account (folder ++ key_separator ∷ from_validity) a
    ∙ ap (λ parts. account ∷ parts)
        (split-append key_separator folder from_validity f
          ∙ ap (λ parts. folder ∷ parts)
              (split-append key_separator (or_empty validity) (decimal uid) v
                ∙ ap (λ parts. or_empty validity ∷ parts)
                    (split_of_Lacks key_separator (decimal_fuel uid uid)
                      (decimal_fuel-Lacks uid uid))))

-- A key gives back the account and the folder from which it was made, if neither of them nor the
-- mailbox generation holds the separator and the account is not empty.
pub message_tag_key_parts :
    (account folder : Text) (uid : ℕ) (validity : Option Text)
    → is_empty account ≡ false
    → Lacks key_separator account
    → Lacks key_separator folder
    → Lacks key_separator (or_empty validity)
    → (message_tag_key_account_id (message_tag_key account folder uid validity) ≡ some account)
      × (message_tag_key_folder_path (message_tag_key account folder uid validity) ≡ some folder)
unfolding message_tag_key_account_id message_tag_key_folder_path
message_tag_key_parts account folder uid validity filled a f v =
    let parts = split-message_tag_key account folder uid validity a f v in
    (rw (parts, filled), rw parts)

-- Two messages with one key have the same account, folder, mailbox generation and number, if the
-- separator is in none of these.
pub message_tag_key_injective :
    (account account' folder folder' : Text) (uid uid' : ℕ) (validity validity' : Option Text)
    → Lacks key_separator account
      × Lacks key_separator folder
      × Lacks key_separator (or_empty validity)
    → Lacks key_separator account'
      × Lacks key_separator folder'
      × Lacks key_separator (or_empty validity')
    → message_tag_key account folder uid validity ≡ message_tag_key account' folder' uid' validity'
    → (account ≡ account')
      × (folder ≡ folder')
      × (or_empty validity ≡ or_empty validity')
      × (uid ≡ uid')
message_tag_key_injective account account' folder folder' uid uid' validity validity' (a, f, v)
      (a', f', v') same =
    let parts : ◌≡◌ {A = List Text} (account ∷ folder ∷ or_empty validity ∷ decimal uid ∷ [])
        (account' ∷ folder' ∷ or_empty validity' ∷ decimal uid' ∷ []) =
      sym (split-message_tag_key account folder uid validity a f v)
      ∙ ap (split key_separator) same
      ∙ split-message_tag_key account' folder' uid' validity' a' f' v' in
    (cc, cc, cc, decimal_injective uid uid' (cc))
