-- ===== src/Queue/Replay.antt =====
-- `#replayPending` of src/main/app-service.ts: the waiting changes of an account, and after them its
-- outbox. One identifier is drawn for each item of the outbox, in order.
use material_email.Prelude.{
  ℕ, Bool, true, false, not, ◌||◌, Option, none, some, List, [], ◌∷◌, ◌++◌, any, filter, leb,
  if◌then◌else◌,
}
use material_email.Prelude.Text.{Text, text}
use material_email.Runtime.{Unicode}
use material_email.Queue.Model.{
  automatic_mail_queue_attempt_limit, StoredAccount, PendingOperation, OutboxItem, MailState,
  Attempt, done, failed, Transport, Result, ok, err, notify, success, system,
}
use material_email.Queue.Heads.{
  require_account, pending_of, outbox_of, has_pending_id, pending_operation_conflict,
  perform_pending_operation, record_pending_failure,
}
use material_email.Queue.Delivery.{deliver_outbox_item}

abbrev pub without_pending : Text → MailState → MailState
without_pending id state = record state {
  pending_operations = filter (λ item. not (has_pending_id id item)) state.pending_operations;
}

abbrev pub synchronized : PendingOperation → MailState → MailState
synchronized operation state =
    notify success system none (text "Queued change synchronized")
      (text "Operation from " ++ operation.created_at ++ text " reached the mail server.")
      (without_pending operation.id state)

abbrev pub no_account : Text
no_account = text "The selected account no longer exists."

abbrev pub is_some {ℓ} : {A : Type ℓ} → Option A → Bool
is_some none = false
is_some (some a) = true

abbrev pub is_paused : ℕ → Bool
is_paused attempts = leb automatic_mail_queue_attempt_limit attempts

-- The state after one turn, and whether the loop goes on.
pub record Turn : Type 0 where
  pub state : MailState
  pub goes_on : Bool

module _ (t : Transport) where
  abbrev pub broken_off : MailState → PendingOperation → Text → Turn
  broken_off state operation error = record {
    state = record_pending_failure state operation.id (t.mail_error_message error);
    goes_on = false;
  }

  abbrev pub performed_for : MailState → PendingOperation → Result StoredAccount → Turn
  performed_for state operation (err e) = broken_off state operation no_account
  performed_for state operation (ok current) = record {
    state = synchronized operation state;
    goes_on = true;
  }

  abbrev pub performed : MailState → StoredAccount → PendingOperation → Attempt (Unit {0}) → Turn
  performed state account operation (failed error) = broken_off state operation error
  performed state account operation (done _) =
      performed_for state operation (require_account state account.id)

  unfoldable pub replay_turn : MailState → StoredAccount → MailState → PendingOperation → Turn
  unfolding pending_operation_conflict perform_pending_operation record_pending_failure
  replay_turn snapshot account state operation =
      if is_some (pending_operation_conflict snapshot operation) || is_paused operation.attempts
      then record { state = state; goes_on = false }
      else performed state account operation (perform_pending_operation t account operation)

  unfoldable pub replay_operations :
      MailState → StoredAccount → List PendingOperation → MailState → MailState
  unfolding replay_turn
  replay_operations snapshot account [] state = state
  replay_operations snapshot account (operation ∷ operations) state =
      let turn = replay_turn snapshot account state operation in
      let rest = replay_operations snapshot account operations turn.state in
      if turn.goes_on then rest else turn.state

abbrev pub succeeded {ℓ} : {A : Type ℓ} → Result A → Bool
succeeded (ok a) = true
succeeded (err e) = false

abbrev pub next_identifier : List Text → Text
next_identifier [] = []
next_identifier (fresh ∷ identifiers) = fresh

abbrev pub later_identifiers : List Text → List Text
later_identifiers [] = []
later_identifiers (fresh ∷ identifiers) = identifiers

module _ (u : Unicode) (t : Transport) where
  unfoldable pub outbox_turn : StoredAccount → MailState → OutboxItem → Text → Turn
  unfolding deliver_outbox_item
  outbox_turn account state item fresh =
      if is_paused item.attempts
      then record { state = state; goes_on = false }
      else (let ran = deliver_outbox_item u t state account item fresh in
          record { state = ran.state; goes_on = succeeded ran.result })

  unfoldable pub replay_outbox : StoredAccount → List OutboxItem → List Text → MailState → MailState
  unfolding outbox_turn
  replay_outbox account [] identifiers state = state
  replay_outbox account (item ∷ items) identifiers state =
      let turn = outbox_turn account state item (next_identifier identifiers) in
      let rest = replay_outbox account items (later_identifiers identifiers) turn.state in
      if turn.goes_on then rest else turn.state

  unfoldable pub replay_pending : StoredAccount → List Text → MailState → MailState
  unfolding replay_operations replay_outbox
  replay_pending account identifiers snapshot =
      let after_operations =
        replay_operations t snapshot account
          (filter (pending_of account.id) snapshot.pending_operations) snapshot in
      if any (pending_of account.id) after_operations.pending_operations
      then after_operations
      else replay_outbox account (filter (outbox_of account.id) after_operations.outbox) identifiers
          after_operations
