-- ===== src/Queue/Begun.antt =====
-- `retryOutbox` of src/main/app-service.ts up to its delivery: what a retry that gets there has found.
use material_email.Prelude.{
  ◌≡◌, refl, sym, subst, ap, ◌∙◌, true, false, Option, none, some, List, [], ◌∷◌, find?, contains,
  Bool-cases, Option-cases, inl, inr, arith,
}
use material_email.Prelude.Text.{Text, text_eq, text_beq_iff}
use material_email.Queue.Model.{
  StoredAccount, OutboxItem, MailState, Transport, ok, err, Ran, Result,
}
use material_email.Queue.Heads.{
  require_account, has_account_id, has_outbox_id, outbox_of, assert_queue_head, outbox_head,
}
use material_email.Queue.Commands.{
  checked, found, unlocked, outbox_named, with_queue_flight, begin_retry,
}
use material_email.Queue.Outbox.{OutboxKeys}
use material_email.Queue.Flights.{named_found}
use material_email.Queue.Interleaving.{Flight, flight_accounts, IsFlying}

-- The delivery that a retry begins: nothing is written, no delivery of its account runs, and its
-- item is in the outbox of its account, which is stored.
pub record IsBegun (t : Transport) (before after : MailState) (running : List Flight) (f : Flight)
    : Type 0 where
  pub same : after ≡ before
  pub free : contains (flight_accounts running) f.account.id ≡ false
  pub flying : IsFlying t before f

-- A check that lets an operation go on has a value, and the operation goes on with it.
checked_ok :
    {A B : Type 0} (state : MailState) (r : Result A) (next : A → Ran B) (b : B)
    → (checked state r next).result ≡ ok b
    → (a : A) × (r ≡ ok a)
      × ((checked state r next).state ≡ (next a).state)
      × ((next a).result ≡ ok b)
checked_ok state (ok a) next b h = (a, refl, refl, h)
checked_ok state (err e) next b h = absurd (cc)

with_queue_flight_ok :
    {A : Type 0} (flights : List Text) (account : Text) (state : MailState) (ran : Ran A) (a : A)
    → (with_queue_flight flights account state ran).result ≡ ok a
    → (contains flights account ≡ false) × (with_queue_flight flights account state ran ≡ ran)
with_queue_flight_ok flights account state ran a h = elim (Bool-cases (contains flights account)) [
  | inl running ↦ absurd (let e = rw running at h in cc)
  | inr free ↦ (free, rw free refl)
]

found_some : (o : Option OutboxItem) (x : OutboxItem) → found o ≡ ok x → o ≡ some x
found_some none x h = absurd (cc)
found_some (some y) x h = cc

has_account_id-id :
    (id : Text) (stored : StoredAccount) (accounts : List StoredAccount)
    → find? (has_account_id id) accounts ≡ some stored
    → stored.id ≡ id
has_account_id-id id stored [] h = absurd (cc)
has_account_id-id id stored (a ∷ accounts) h = elim (Bool-cases (has_account_id id a)) [
  | inl is_id ↦
      let same : a ≡ stored = ground arith in
      subst (λ (z : StoredAccount). z.id ≡ id) same ((text_beq_iff a.id id).0 is_id)
  | inr differs ↦ has_account_id-id id stored accounts (rw differs at h)
]

require_account-id :
    (state : MailState) (id : Text) (stored : StoredAccount)
    → require_account state id ≡ ok stored
    → stored.id ≡ id
require_account-id state id stored h =
    elim (Option-cases (find? (has_account_id id) state.accounts)) [
      | inl missing ↦ absurd (let e = rw missing at h in cc)
      | inr (a, there) ↦
          let e = rw there at h in
          let same : a ≡ stored = cc in
          has_account_id-id id stored state.accounts (there ∙ ap some same)
    ]

has_outbox_id-id :
    (id : Text) (item : OutboxItem) (items : List OutboxItem)
    → find? (has_outbox_id id) items ≡ some item
    → item.id ≡ id
has_outbox_id-id id item [] h = absurd (cc)
has_outbox_id-id id item (i ∷ items) h = elim (Bool-cases (has_outbox_id id i)) [
  | inl is_id ↦
      let same : i ≡ item = ground arith in
      subst (λ (z : OutboxItem). z.id ≡ id) same ((text_beq_iff i.id id).0 is_id)
  | inr differs ↦ has_outbox_id-id id item items (rw differs at h)
]

pub begin_retry-IsBegun :
    (t : Transport) (state : MailState) (running : List Flight) (account_id outbox_id : Text)
    (f : Flight)
    → OutboxKeys state.outbox
    → (begin_retry t (flight_accounts running) state account_id outbox_id).result
      ≡ ok (f.account, f.item)
    → IsBegun t state
        (begin_retry t (flight_accounts running) state account_id outbox_id).state
        running
        f
unfolding begin_retry
begin_retry-IsBegun t state running account_id outbox_id f keys h =
    let flights = flight_accounts running in
    let (free, ran) = with_queue_flight_ok flights account_id state _ (f.account, f.item) h in
    let (stored, known, s1, h1) =
      checked_ok state (require_account state account_id) _ (f.account, f.item) (rw ran at h) in
    let (open_, opened, s2, h2) =
      checked_ok state (unlocked (t.unlock stored)) _ (f.account, f.item) h1 in
    let (item, there, s3, h3) =
      checked_ok state (found (find? (outbox_named account_id outbox_id) state.outbox)) _
        (f.account, f.item) h2 in
    let (first, ahead, s4, h4) =
      checked_ok state (assert_queue_head state account_id (outbox_head outbox_id)) _
        (f.account, f.item) h3 in
    let same_account : stored ≡ f.account = cc in
    let same_item : item ≡ f.item = cc in
    let (by_id, mine) =
      named_found account_id outbox_id item state.outbox keys (found_some _ item there) in
    let id_of = require_account-id state account_id stored known in
    let item_id = has_outbox_id-id outbox_id item state.outbox by_id in
    let named : f.account.id ≡ account_id =
      ap (λ (a : StoredAccount). a.id) (sym same_account) ∙ id_of in
    record {
      same = ap (λ (r : Ran (StoredAccount × OutboxItem)). r.state) ran ∙ s1 ∙ s2 ∙ s3 ∙ s4;
      free = rw named free;
      flying = record {
        known =
            subst (λ id. require_account state id ≡ ok f.account) (sym named)
              (known ∙ ap ok same_account);
        found =
            subst (λ (i : OutboxItem). find? (has_outbox_id i.id) state.outbox ≡ some i) same_item
              (rw item_id by_id);
        mine = rw named (subst (λ (i : OutboxItem). outbox_of account_id i ≡ true) same_item mine);
      };
    }
