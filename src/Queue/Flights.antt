-- ===== src/Queue/Flights.antt =====
-- Items of the outbox that stay where they are while others are taken away, changed or added
-- (src/main/app-service.ts).
use material_email.Prelude.{
  ◌≡◌, ◌≢◌, sym, ap, subst, ◌∙◌, Bool, true, false, not, some, List, [], ◌∷◌, ◌++◌, arith, filter,
  find?, contains, All, Bool-cases, inl, inr,
}
use material_email.Prelude.Text.{Text, text_beq, text_beq_iff, text_eq}
use material_email.Queue.Model.{OutboxItem, MailState, Transport}
use material_email.Queue.Heads.{outbox_of, has_outbox_id, update_first, failed_outbox}
use material_email.Queue.Commands.{outbox_named}
use material_email.Queue.Outbox.{OutboxKeys}
use material_email.Queue.Interleaving.{Flight, flight_accounts, IsFlying}

find?-All :
    (P : OutboxItem → Type 0) (p : OutboxItem → Bool) (x : OutboxItem) (l : List OutboxItem)
    → All P l
    → find? p l ≡ some x
    → P x × (p x ≡ true)
find?-All P p x [] h e = absurd (cc)
find?-All P p x (y ∷ l) (h, hs) e = elim (Bool-cases (p y)) [
  | inl is_p ↦
      let same : y ≡ x = ground arith in (subst P same h, subst (λ z. p z ≡ true) same is_p)
  | inr not_p ↦ find?-All P p x l hs (rw not_p at e)
]

-- The item of an account with an identifier is the item with the identifier.
pub named_found :
    (account id : Text) (x : OutboxItem) (l : List OutboxItem)
    → OutboxKeys l
    → find? (outbox_named account id) l ≡ some x
    → (find? (has_outbox_id id) l ≡ some x) × (outbox_of account x ≡ true)
named_found account id x [] d e = absurd (cc)
named_found account id x (y ∷ l) (d, ds) e = elim (Bool-cases (has_outbox_id id y)) [
  | inr other ↦ rw other (named_found account id x l ds (rw other at e))
  | inl here ↦ elim (Bool-cases (outbox_of account y)) [
    | inl ours ↦
        let same : y ≡ x = some_injective (rw (here, ours) at e) in
        rw here (ap some same, subst (λ z. outbox_of account z ≡ true) same ours)
    | inr foreign ↦
        let (ne, named) =
          find?-All (λ z. z.id ≢ y.id) (outbox_named account id) x l d (rw (here, foreign) at e) in
        absurd (ne (ground (arith, text_beq_iff x.id id, text_beq_iff y.id id)))
  ]
]
  where
    some_injective : {a b : OutboxItem} → some a ≡ some b → a ≡ b
    some_injective p = cc

pub found_without :
    (id other : Text) (x : OutboxItem) (l : List OutboxItem)
    → id ≢ other
    → find? (has_outbox_id id) l ≡ some x
    → find? (has_outbox_id id) (filter (λ i. not (has_outbox_id other i)) l) ≡ some x
found_without id other x [] ne e = absurd (cc)
found_without id other x (y ∷ l) ne e =
    ground (arith, text_beq_iff y.id id, text_beq_iff y.id other, found_without id other x l ne)

pub found_updated :
    (id other message : Text) (x : OutboxItem) (l : List OutboxItem)
    → id ≢ other
    → find? (has_outbox_id id) l ≡ some x
    → find? (has_outbox_id id) (update_first (has_outbox_id other) (failed_outbox message) l)
      ≡ some x
unfolding update_first
found_updated id other message x [] ne e = absurd (cc)
found_updated id other message x (y ∷ l) ne e = elim (Bool-cases (has_outbox_id other y)) [
  | inl here ↦
      let differs : has_outbox_id id y ≡ false =
        ground (arith, text_beq_iff y.id id, text_beq_iff y.id other) in
      rw (here, differs) (rw differs at e)
  | inr later ↦ rw later (elim (Bool-cases (has_outbox_id id y)) [
    | inl same ↦ rw same (rw same at e)
    | inr differs ↦ rw differs (found_updated id other message x l ne (rw differs at e))
  ])
]

pub found_append :
    (id : Text) (x : OutboxItem) (l ys : List OutboxItem)
    → find? (has_outbox_id id) l ≡ some x
    → find? (has_outbox_id id) (l ++ ys) ≡ some x
found_append id x [] ys e = absurd (cc)
found_append id x (y ∷ l) ys e = elim (Bool-cases (has_outbox_id id y)) [
  | inl same ↦ rw same (rw same at e)
  | inr differs ↦ rw differs (found_append id x l ys (rw differs at e))
]

ids_updated :
    (P : Text → Type 0) (other message : Text) (l : List OutboxItem)
    → All (λ (i : OutboxItem). P i.id) l
    → All
        (λ (i : OutboxItem). P i.id)
        (update_first (has_outbox_id other) (failed_outbox message) l)
unfolding update_first
ids_updated P other message [] h = tt
ids_updated P other message (y ∷ l) (h, hs) = elim (Bool-cases (has_outbox_id other y)) [
  | inl here ↦ rw here (h, hs)
  | inr later ↦ rw later (h, ids_updated P other message l hs)
]

pub keys_updated :
    (other message : Text) (l : List OutboxItem)
    → OutboxKeys l
    → OutboxKeys (update_first (has_outbox_id other) (failed_outbox message) l)
unfolding update_first
keys_updated other message [] h = tt
keys_updated other message (y ∷ l) (h, hs) = elim (Bool-cases (has_outbox_id other y)) [
  | inl here ↦ rw here (h, hs)
  | inr later ↦
      rw later (ids_updated (λ i. i ≢ y.id) other message l h, keys_updated other message l hs)
]

pub absent_account :
    (account : Text) (flights : List Flight)
    → contains (flight_accounts flights) account ≡ false
    → All (λ (f : Flight). f.account.id ≢ account) flights
absent_account account [] h = tt
absent_account account (f ∷ flights) h = elim (Bool-cases (text_beq f.account.id account)) [
  | inl same ↦ absurd (let e = rw same at h in cc)
  | inr differs ↦ (
    λ e. ground (arith, text_beq_iff f.account.id account),
    absent_account account flights (rw differs at h),
  )
]

-- The item of a delivery is not the item of another account.
pub other_item :
    (t : Transport) (state : MailState) (f : Flight) (account : Text) (x : OutboxItem)
    → IsFlying t state f
    → f.account.id ≢ account
    → find? (has_outbox_id x.id) state.outbox ≡ some x
    → outbox_of account x ≡ true
    → f.item.id ≢ x.id
other_item t state f account x flying ne found mine e =
    let same : f.item ≡ x = some_injective (sym flying.found ∙ rw e found) in
    let theirs : outbox_of f.account.id x ≡ true =
      subst (λ i. outbox_of f.account.id i ≡ true) same flying.mine in
    ne (
      sym ((text_beq_iff x.draft.account_id f.account.id).0 theirs)
      ∙ (text_beq_iff x.draft.account_id account).0 mine)
  where
    some_injective : {a b : OutboxItem} → some a ≡ some b → a ≡ b
    some_injective p = cc

-- A delivery goes on in a state with the same accounts in which its item is found.
pub flies_on :
    (t : Transport) (before after : MailState) (f : Flight)
    → after.accounts ≡ before.accounts
    → IsFlying t before f
    → find? (has_outbox_id f.item.id) after.outbox ≡ some f.item
    → IsFlying t after f
flies_on t before after f same flying found = record {
  known = rw same flying.known;
  found = found;
  mine = flying.mine;
}
