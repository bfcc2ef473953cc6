-- ===== src/Queue/Summaries.antt =====
-- src/main/app-service.ts: the lists of drafts, of waiting changes and of the outbox that the reader sees.
use material_email.Prelude.{ℕ, ◌+◌, Bool, Option, List, map, filter, length, take}
use material_email.Prelude.Text.{Text, text_beq}
use material_email.Mail.{ComposeDraft}
use material_email.Queue.Model.{
  automatic_mail_queue_attempt_limit, StoredAccount, PendingOperation, PendingKind, FlagPatch,
  OutboxItem, MailState, Transport, Result, ok, err,
}
use material_email.Queue.Heads.{
  require_account, pending_of, outbox_of, pending_operation_conflict, pending_head, outbox_head,
  queue_head, same_head, nonempty,
}
use material_email.Queue.Replay.{is_paused}

pub record LocalDraftSummary : Type 0 where
  pub id : Option Text
  pub account_id : Text
  pub recipient_count : ℕ
  pub subject : Text
  pub preview : Text
  pub attachment_count : ℕ

pub record MailQueueRetryState : Type 0 where
  pub attempts : ℕ
  pub automatic_attempt_limit : ℕ
  pub automatic_retry_paused : Bool
  pub is_queue_head : Bool

pub record PendingOperationSummary : Type 0 where
  pub id : Text
  pub account_id : Text
  pub kind : PendingKind
  pub folder_path : Text
  pub uid : ℕ
  pub uid_validity : Option Text
  pub patch : Option FlagPatch
  pub destination : Option Text
  pub created_at : Text
  pub last_error : Text
  pub conflict_reason : Option Text
  pub retry_state : MailQueueRetryState

pub record OutboxSummary : Type 0 where
  pub id : Text
  pub account_id : Text
  pub recipient_count : ℕ
  pub subject : Text
  pub preview : Text
  pub attachment_count : ℕ
  pub created_at : Text
  pub last_error : Text
  pub retry_state : MailQueueRetryState

abbrev recipients : ComposeDraft → ℕ
recipients draft = length draft.to + length draft.cc + length draft.bcc

abbrev listed {ℓ} : {A : Type ℓ} → Result StoredAccount → List A → Result (List A)
listed (ok account) items = ok items
listed (err e) items = err e

abbrev retry_state_of : ℕ → Bool → MailQueueRetryState
retry_state_of attempts head = record {
  attempts = attempts;
  automatic_attempt_limit = automatic_mail_queue_attempt_limit;
  automatic_retry_paused = is_paused attempts;
  is_queue_head = head;
}

abbrev draft_summary : Text → ComposeDraft → LocalDraftSummary
draft_summary account item = record {
  id = item.id;
  account_id = account;
  recipient_count = recipients item;
  subject = item.subject;
  preview = take 240 item.text;
  attachment_count = length item.attachments;
}

abbrev draft_of : Text → ComposeDraft → Bool
draft_of account draft = text_beq draft.account_id account

unfoldable pub list_drafts : MailState → Text → Result (List LocalDraftSummary)
list_drafts state account =
    listed (require_account state account)
      (map (draft_summary account) (filter (draft_of account) state.drafts))

module _ (t : Transport) where
  abbrev pending_summary : MailState → Text → PendingOperation → PendingOperationSummary
  pending_summary state account item = record {
    id = item.id;
    account_id = item.account_id;
    kind = item.kind;
    folder_path = item.folder_path;
    uid = item.uid;
    uid_validity = nonempty item.uid_validity;
    patch = item.patch;
    destination = nonempty item.destination;
    created_at = item.created_at;
    last_error = t.mail_error_message item.last_error;
    conflict_reason = pending_operation_conflict state item;
    retry_state =
        retry_state_of item.attempts (same_head (queue_head state account) (pending_head item.id));
  }

  unfoldable pub list_pending_operations : MailState → Text → Result (List PendingOperationSummary)
  unfolding queue_head pending_operation_conflict
  list_pending_operations state account =
      listed (require_account state account)
        (map (pending_summary state account) (filter (pending_of account) state.pending_operations))

  abbrev outbox_summary : MailState → Text → OutboxItem → OutboxSummary
  outbox_summary state account item = record {
    id = item.id;
    account_id = account;
    recipient_count = recipients item.draft;
    subject = item.draft.subject;
    preview = take 240 item.draft.text;
    attachment_count = length item.draft.attachments;
    created_at = item.created_at;
    last_error = t.mail_error_message item.last_error;
    retry_state =
        retry_state_of item.attempts (same_head (queue_head state account) (outbox_head item.id));
  }

  unfoldable pub list_outbox : MailState → Text → Result (List OutboxSummary)
  unfolding queue_head
  list_outbox state account =
      listed (require_account state account)
        (map (outbox_summary state account) (filter (outbox_of account) state.outbox))
