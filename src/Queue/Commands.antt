-- ===== src/Queue/Commands.antt =====
-- src/main/app-service.ts: what the reader does with the items of the queues. `flights` holds the
-- accounts for which an operation of the queue is running.
use material_email.Prelude.{
  Bool, ◌&&◌, Option, none, some, List, [], ◌∷◌, ◌++◌, find?, contains, if◌then◌else◌,
}
use material_email.Prelude.Text.{Text, text, text_eq, decimal}
use material_email.Runtime.{Unicode}
use material_email.Mail.{ComposeDraft}
use material_email.Sending.{SendResult}
use material_email.Queue.Model.{
  StoredAccount, PendingOperation, OutboxItem, MailState, Attempt, done, failed, Transport,
  item_missing, conflicting, flight_running, rejected_by, Result, ok, err, Ran, notify,
  record_history, success, warning, info, mail, delivery, system, open_page, open_draft, mail_page,
  drafts_page, deleted, updated, draft_entity, message_entity, NotificationAction,
}
use material_email.Queue.Heads.{
  require_account, pending_of, outbox_of, has_pending_id, has_outbox_id, pending_operation_conflict,
  perform_pending_operation, record_pending_failure, pending_head, outbox_head, queue_head,
  assert_queue_head, nonempty, kind_text,
}
use material_email.Queue.Delivery.{deliver_outbox_item, without_outbox, put_draft, quoted}
use material_email.Queue.Replay.{without_pending, no_account}

-- a check before anything is written
abbrev pub checked {ℓ κ} : {A : Type ℓ} {B : Type κ} → MailState → Result A → (A → Ran B) → Ran B
checked state (ok value) next = next value
checked state (err e) next = record { state = state; result = err e }

abbrev pub found {ℓ} : {A : Type ℓ} → Option A → Result A
found none = err item_missing
found (some a) = ok a

abbrev pub unlocked : Attempt (Unit {0}) → Result (Unit {0})
unlocked (done _) = ok tt
unlocked (failed error) = err (rejected_by error)

abbrev pub no_conflict : Option Text → Result (Unit {0})
no_conflict none = ok tt
no_conflict (some reason) = err conflicting

abbrev pub with_queue_flight {ℓ} : {A : Type ℓ} → List Text → Text → MailState → Ran A → Ran A
with_queue_flight flights account state operation =
    if contains flights account
    then record { state = state; result = err flight_running }
    else operation

abbrev pub pending_named : Text → Text → PendingOperation → Bool
pending_named account id item = has_pending_id id item && pending_of account item

abbrev pub outbox_named : Text → Text → OutboxItem → Bool
outbox_named account id item = has_outbox_id id item && outbox_of account item

module _ (t : Transport) where
  abbrev retry_failed : MailState → PendingOperation → Text → Ran (Unit {0})
  retry_failed state operation error = record {
    state = record_pending_failure state operation.id (t.mail_error_message error);
    result = err (rejected_by (t.mail_error_message error));
  }

  abbrev retried_for : MailState → PendingOperation → Result StoredAccount → Ran (Unit {0})
  retried_for state operation (err e) = retry_failed state operation no_account
  retried_for state operation (ok account) = record {
    state =
        notify success mail (some (open_page mail_page)) (text "Queued change synchronized")
          (text "The queue head reached the mail server after one manual retry.")
          (without_pending operation.id state);
    result = ok tt;
  }

  abbrev retried : MailState → Text → PendingOperation → Attempt (Unit {0}) → Ran (Unit {0})
  retried state account operation (failed error) = retry_failed state operation error
  retried state account operation (done _) =
      retried_for state operation (require_account state account)

  unfoldable pub retry_pending_operation : List Text → MailState → Text → Text → Ran (Unit {0})
  unfolding queue_head pending_operation_conflict perform_pending_operation record_pending_failure
  retry_pending_operation flights state account_id operation_id =
      with_queue_flight flights account_id state (
        checked state (require_account state account_id) λ account.
          checked state (unlocked (t.unlock account)) λ _.
            checked state
              (found (find? (pending_named account_id operation_id) state.pending_operations))
              λ operation.
                checked state (assert_queue_head state account_id (pending_head operation_id)) λ _.
                  checked state (no_conflict (pending_operation_conflict state operation)) λ _.
                    retried state account_id operation
                      (perform_pending_operation t account operation))

abbrev discarded : MailState → PendingOperation → MailState
discarded state operation =
    notify warning system none (text "Queued change discarded")
      (text
        "The server action was not performed. The next folder refresh will reconcile the local cache with the server.")
      (record_history deleted message_entity operation.id
        (text "Discarded queued "
          ++ kind_text operation.kind
          ++ text " change for "
          ++ operation.folder_path
          ++ text " UID "
          ++ decimal operation.uid)
        (without_pending operation.id state))

unfoldable pub discard_pending_operation : List Text → MailState → Text → Text → Ran (Unit {0})
unfolding decimal
discard_pending_operation flights state account_id operation_id =
    with_queue_flight flights account_id state (
      checked state (require_account state account_id) λ account.
        checked state
          (found (find? (pending_named account_id operation_id) state.pending_operations))
          λ operation. record { state = discarded state operation; result = ok tt })

-- The draft of a cancelled item replaces the draft with its identifier, or comes last.
abbrev pub returned_draft : ComposeDraft → List ComposeDraft → Option Text → List ComposeDraft
returned_draft draft drafts none = drafts ++ draft ∷ []
returned_draft draft drafts (some id) = put_draft id draft drafts

abbrev draft_action : Text → Option Text → NotificationAction
draft_action account none = open_page drafts_page
draft_action account (some id) = open_draft account id

abbrev id_text : Option Text → Text
id_text none = []
id_text (some id) = id

abbrev cancelled : MailState → Text → OutboxItem → MailState
cancelled state account item =
    notify info delivery (some (draft_action account (nonempty item.draft.id)))
      (text "Outbox item cancelled") (text "The message is available again as a local draft.")
      (record_history updated draft_entity (id_text item.draft.id)
        (quoted (text "Moved Outbox message ") item.draft (text " back to drafts"))
        (record (without_outbox item.id state) {
          drafts = returned_draft item.draft state.drafts (nonempty item.draft.id);
        }))

unfoldable pub cancel_outbox : List Text → MailState → Text → Text → Ran ComposeDraft
unfolding put_draft
cancel_outbox flights state account_id outbox_id = with_queue_flight flights account_id state (
    checked state (require_account state account_id) λ account.
      checked state (found (find? (outbox_named account_id outbox_id) state.outbox))
        λ item. record { state = cancelled state account_id item; result = ok item.draft })

-- `retryOutbox` up to its call of `#deliverOutboxItem`: the account and the item that are delivered.
unfoldable pub begin_retry :
    Transport → List Text → MailState → Text → Text → Ran (StoredAccount × OutboxItem)
unfolding queue_head
begin_retry t flights state account_id outbox_id = with_queue_flight flights account_id state (
    checked state (require_account state account_id) λ account.
      checked state (unlocked (t.unlock account)) λ _.
        checked state (found (find? (outbox_named account_id outbox_id) state.outbox)) λ item.
          checked state (assert_queue_head state account_id (outbox_head outbox_id))
            λ _. record { state = state; result = ok (account, item) })

module _ (u : Unicode) (t : Transport) where
  -- `fresh` is a new identifier for a draft.
  unfoldable pub retry_outbox : List Text → MailState → Text → Text → Text → Ran SendResult
  unfolding begin_retry deliver_outbox_item
  retry_outbox flights state account_id outbox_id fresh =
      let begun = begin_retry t flights state account_id outbox_id in
      checked begun.state begun.result
        λ chosen. deliver_outbox_item u t begun.state chosen.0 chosen.1 fresh
