-- ===== src/Queue/Outbox.antt =====
-- The outbox of an account under `#deliverOutboxItem` and under the second loop of `#replayPending`
-- (src/main/app-service.ts).
use material_email.Prelude.{
  ◌≡◌, refl, subst, Bool, true, false, not, ◌&&◌, Option, none, some, List, [], ◌∷◌, arith, filter,
  find?, All, filter_sound, Bool-cases, inl, inr, nat_beq, suc,
}
use material_email.Prelude.Text.{Text}
use material_email.Runtime.{Unicode}
use material_email.Sending.{
  SendResult, SendDisposition, was_queued, sent, partial, was_rejected, classify_send_result,
}
use material_email.Identities.Normal.{MailIdentity}
use material_email.Identities.Stored.{identity_for_draft}
use material_email.Queue.Model.{
  automatic_mail_queue_attempt_limit, StoredAccount, OutboxItem, MailState, Attempt, done, failed,
  Transport, ok, Ran,
}
use material_email.Queue.Heads.{
  require_account, outbox_of, has_outbox_id, update_first, failed_outbox, record_outbox_failure,
}
use material_email.Queue.Delivery.{
  settle_by, settle_delivery, keep_rejected, without_outbox, delivered,
}
use material_email.Queue.Replay.{is_paused, succeeded}
use material_email.Queue.Lists.{HasDistinctKeys, find?-first}
use material_email.Queue.Draining.{drain}

abbrev pub OutboxKeys : List OutboxItem → Type 0
OutboxKeys = HasDistinctKeys (λ (item : OutboxItem). item.id)

abbrev pub not_of : Text → OutboxItem → Bool
not_of account item = not (outbox_of account item)

-- the parts of the state that a delivery leaves alone
pub record IsAfter (before after : MailState) : Type 0 where
  pub accounts : after.accounts ≡ before.accounts
  pub identities : after.identities ≡ before.identities
  pub pending_operations : after.pending_operations ≡ before.pending_operations

settle_by-outbox :
    (d : SendDisposition) (state : MailState) (queued : OutboxItem) (answer : SendResult)
    (fresh : Text)
    → ((settle_by d state queued answer fresh).outbox ≡ state.outbox)
      × IsAfter state (settle_by d state queued answer fresh)
unfolding keep_rejected
settle_by-outbox was_queued state queued answer fresh =
    (refl, record { accounts = refl; identities = refl; pending_operations = refl })
settle_by-outbox sent state queued answer fresh =
    (refl, record { accounts = refl; identities = refl; pending_operations = refl })
settle_by-outbox partial state queued answer fresh =
    (refl, record { accounts = refl; identities = refl; pending_operations = refl })
settle_by-outbox was_rejected state queued answer fresh =
    (refl, record { accounts = refl; identities = refl; pending_operations = refl })

find?-both :
    (p q : OutboxItem → Bool) (x : OutboxItem) (l : List OutboxItem)
    → find? p l ≡ some x
    → q x ≡ true
    → find? (λ y. p y && q y) l ≡ some x
find?-both p q x [] h k = absurd (cc)
find?-both p q x (y ∷ l) h k = ground (arith, find?-both p q x l)

pub record_outbox_failure-outbox :
    (state : MailState) (item : OutboxItem) (message : Text)
    → find? (has_outbox_id item.id) state.outbox ≡ some item
    → ((record_outbox_failure state item.id message).outbox
        ≡ update_first (has_outbox_id item.id) (failed_outbox message) state.outbox)
      × IsAfter state (record_outbox_failure state item.id message)
unfolding record_outbox_failure
record_outbox_failure-outbox state item message found =
    rw found (elim (Bool-cases (nat_beq (suc item.attempts) automatic_mail_queue_attempt_limit)) [
      | inl limit ↦
          rw limit (refl, record { accounts = refl; identities = refl; pending_operations = refl })
      | inr below ↦
          rw below (refl, record { accounts = refl; identities = refl; pending_operations = refl })
    ])

-- the words recorded for a delivery that fails
abbrev pub error_of {ℓ} : {A : Type ℓ} → Transport → Attempt A → Option Text
error_of t (done answer) = none
error_of t (failed error) = some (t.mail_error_message error)

abbrev pub outbox_stops : OutboxItem → Bool
outbox_stops item = is_paused item.attempts

abbrev pub send_error :
    Unicode → Transport → StoredAccount → Option (List MailIdentity) → OutboxItem → Option Text
send_error u t account identities item =
    error_of t (t.send_message account item.draft (identity_for_draft u identities item.draft))

-- what is left of the account's items
abbrev pub drained_outbox :
    Unicode
    → Transport
    → StoredAccount
    → Option (List MailIdentity)
    → List OutboxItem
    → List OutboxItem
drained_outbox u t account identities =
    drain outbox_stops (send_error u t account identities) failed_outbox

module _ (t : Transport) (account current : StoredAccount) where
  -- What is on hand when the turn of an item comes.
  pub record IsTurn (state : MailState) (item : OutboxItem) (items : List OutboxItem) : Type 0 where
    pub keys : OutboxKeys state.outbox
    pub known : require_account state account.id ≡ ok current
    pub first : filter (outbox_of account.id) state.outbox ≡ item ∷ items

  -- An item of the account that is in the outbox.
  pub record IsInFlight (state : MailState) (item : OutboxItem) : Type 0 where
    pub known : require_account state account.id ≡ ok current
    pub found : find? (has_outbox_id item.id) state.outbox ≡ some item
    pub mine : outbox_of account.id item ≡ true

  pub in_flight :
      (state : MailState) (item : OutboxItem) (items : List OutboxItem)
      → IsTurn state item items
      → IsInFlight state item
  in_flight state item items turn = record {
    known = turn.known;
    found =
        find?-first (λ (i : OutboxItem). i.id) (outbox_of account.id) item items state.outbox
          turn.keys turn.first;
    mine =
        (subst (All (λ i. outbox_of account.id i ≡ true)) turn.first
          (filter_sound (outbox_of account.id) state.outbox)).0;
  }

  -- What a delivery leaves: the outbox without the item, or with its failure.
  pub record IsDelivered (state : MailState) (item : OutboxItem) (error : Option Text)
      (ran : Ran SendResult) : Type 0 where
    pub outbox : ran.state.outbox ≡ (elim error [
      | none ↦ filter (λ other. not (has_outbox_id item.id other)) state.outbox
      | some message ↦ update_first (has_outbox_id item.id) (failed_outbox message) state.outbox
    ])
    pub goes_on : succeeded ran.result ≡ (elim error [ none ↦ true | some message ↦ false ])
    pub rest : IsAfter state ran.state

  pub delivered-IsDelivered :
      (state : MailState) (item : OutboxItem) (fresh : Text) (attempt : Attempt SendResult)
      → IsInFlight state item
      → IsDelivered state item (error_of t attempt) (delivered t state account item fresh attempt)
  unfolding settle_delivery
  delivered-IsDelivered state item fresh (failed error) flight =
      let (o, after) =
        record_outbox_failure-outbox state item (t.mail_error_message error) flight.found in
      record { outbox = o; goes_on = refl; rest = after }
  delivered-IsDelivered state item fresh (done answer) flight =
      let named =
        find?-both (has_outbox_id item.id) (outbox_of account.id) item state.outbox flight.found
          flight.mine in
      let (o, after) =
        settle_by-outbox (classify_send_result answer) (without_outbox item.id state) item answer
          fresh in
      rw (flight.known, named)
        record {
          outbox = o;
          goes_on = refl;
          rest = record {
            accounts = after.accounts;
            identities = after.identities;
            pending_operations = after.pending_operations;
          };
        }
