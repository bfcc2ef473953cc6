-- ===== src/Queue/Heads.antt =====
-- src/main/app-service.ts: the head of an account's queue, conflicts of waiting changes, and their
-- replay on the server.
use material_email.Prelude.{
  suc, Bool, false, Option, none, some, List, [], ◌∷◌, ◌++◌, find?, nat_beq, if◌then◌else◌,
}
use material_email.Prelude.Text.{Text, text, text_beq, decimal, is_empty}
use material_email.Mail.{FolderSummary, lookup}
use material_email.Queue.Model.{
  automatic_mail_queue_attempt_limit, StoredAccount, PendingOperation, flags, move, FlagPatch,
  OutboxItem, MailState, Attempt, failed, Transport, account_missing, not_queue_head, Result, ok,
  err, notify, warning, mail, delivery, retry_pending, retry_outbox_item, PendingKind,
}

abbrev pub has_account_id : Text → StoredAccount → Bool
has_account_id id account = text_beq account.id id

abbrev found_account : Option StoredAccount → Result StoredAccount
found_account none = err account_missing
found_account (some account) = ok account

abbrev pub require_account : MailState → Text → Result StoredAccount
require_account state account = found_account (find? (has_account_id account) state.accounts)

abbrev pub pending_of : Text → PendingOperation → Bool
pending_of account item = text_beq item.account_id account

abbrev pub outbox_of : Text → OutboxItem → Bool
outbox_of account item = text_beq item.draft.account_id account

abbrev pub has_pending_id : Text → PendingOperation → Bool
has_pending_id id item = text_beq item.id id

abbrev pub has_outbox_id : Text → OutboxItem → Bool
has_outbox_id id item = text_beq item.id id

pub data QueueHead : Type 0 where
  pending_head : Text → QueueHead
  outbox_head : Text → QueueHead

abbrev pub outbox_head_of : Option OutboxItem → Option QueueHead
outbox_head_of none = none
outbox_head_of (some item) = some (outbox_head item.id)

abbrev pub head_of : Option PendingOperation → Option OutboxItem → Option QueueHead
head_of none outbox = outbox_head_of outbox
head_of (some pending) outbox = some (pending_head pending.id)

unfoldable pub queue_head : MailState → Text → Option QueueHead
queue_head state account =
    head_of (find? (pending_of account) state.pending_operations)
      (find? (outbox_of account) state.outbox)

abbrev pub same_head : Option QueueHead → QueueHead → Bool
same_head none head = false
same_head (some (pending_head id)) (pending_head id') = text_beq id id'
same_head (some (pending_head id)) (outbox_head id') = false
same_head (some (outbox_head id)) (pending_head id') = false
same_head (some (outbox_head id)) (outbox_head id') = text_beq id id'

abbrev pub assert_queue_head : MailState → Text → QueueHead → Result (Unit {0})
assert_queue_head state account head =
    if same_head (queue_head state account) head then ok tt else err not_queue_head

abbrev folders_or_nil : Option (List FolderSummary) → List FolderSummary
folders_or_nil none = []
folders_or_nil (some folders) = folders

abbrev validity_of : Option FolderSummary → Option Text
validity_of none = none
validity_of (some folder) = folder.uid_validity

-- An empty text counts as none.
abbrev pub nonempty : Option Text → Option Text
nonempty none = none
nonempty (some s) = if is_empty s then none else some s

abbrev conflict_text : PendingOperation → Text → Text → Text
conflict_text operation validity current =
    text "The "
    ++ operation.folder_path
    ++ text " mailbox changed from UIDVALIDITY "
    ++ validity
    ++ text " to "
    ++ current
    ++ text "; UID "
    ++ decimal operation.uid
    ++ text " may now identify a different message."

abbrev pub conflict_between : PendingOperation → Option Text → Option Text → Option Text
conflict_between operation none current =
    some (text "This queued change has no UIDVALIDITY identity and cannot be retried safely.")
conflict_between operation (some validity) none = none
conflict_between operation (some validity) (some current) =
    if text_beq current validity then none else some (conflict_text operation validity current)

unfoldable pub pending_operation_conflict : MailState → PendingOperation → Option Text
unfolding decimal
pending_operation_conflict state operation =
    conflict_between operation (nonempty operation.uid_validity) (
      nonempty (
        validity_of (
          find? (λ (folder : FolderSummary). text_beq folder.path operation.folder_path)
            (folders_or_nil (lookup operation.account_id state.folders)))))

abbrev no_validity : Text
no_validity = text "The queued operation has no mailbox UIDVALIDITY and cannot be replayed safely."

abbrev incomplete_operation : Text
incomplete_operation = text "The queued operation is incomplete."

abbrev perform_by :
    Transport
    → StoredAccount
    → PendingOperation
    → PendingKind
    → Option FlagPatch
    → Option Text
    → Text
    → Attempt (Unit {0})
perform_by t account operation flags (some patch) destination validity =
    t.set_flags account operation.folder_path operation.uid patch validity
perform_by t account operation flags none destination validity = failed incomplete_operation
perform_by t account operation move patch (some destination) validity =
    t.move_message account operation.folder_path operation.uid destination validity
perform_by t account operation move patch none validity = failed incomplete_operation

abbrev perform_under :
    Transport → StoredAccount → PendingOperation → Option Text → Attempt (Unit {0})
perform_under t account operation none = failed no_validity
perform_under t account operation (some validity) =
    perform_by t account operation operation.kind operation.patch (nonempty operation.destination)
      validity

unfoldable pub perform_pending_operation :
    Transport → StoredAccount → PendingOperation → Attempt (Unit {0})
perform_pending_operation t account operation =
    perform_under t account operation (nonempty operation.uid_validity)

abbrev pub kind_text : PendingKind → Text
kind_text flags = text "flags"
kind_text move = text "move"

abbrev paused : Text
paused = text "Automatic retries paused"

abbrev limit_text : Text
limit_text = decimal automatic_mail_queue_attempt_limit

abbrev pub notify_paused_pending : PendingOperation → MailState → MailState
notify_paused_pending item =
    notify warning mail (some (retry_pending item.account_id item.id)) paused (
      text "Queued "
      ++ kind_text item.kind
      ++ text " change "
      ++ item.id
      ++ text " reached "
      ++ limit_text
      ++ text " failed attempts. Review the queue head, retry it once manually, or discard it.")

abbrev pub notify_paused_outbox : OutboxItem → MailState → MailState
notify_paused_outbox item =
    notify warning delivery (some (retry_outbox_item item.draft.account_id item.id)) paused (
      text "Outbox item "
      ++ item.id
      ++ text " reached "
      ++ limit_text
      ++ text
          " failed attempts. Review the queue head, retry it once manually, or move it back to drafts.")

-- The first item that passes the test is changed in place.
unfoldable pub update_first {ℓ} : {A : Type ℓ} → (A → Bool) → (A → A) → List A → List A
update_first p f [] = []
update_first p f (x ∷ xs) = if p x then f x ∷ xs else x ∷ update_first p f xs

abbrev pub failed_pending : Text → PendingOperation → PendingOperation
failed_pending message item = record item { attempts = suc item.attempts; last_error = message }

abbrev pub failed_outbox : Text → OutboxItem → OutboxItem
failed_outbox message item = record item { attempts = suc item.attempts; last_error = message }

abbrev pub pending_failure_of : MailState → Text → Text → Option PendingOperation → MailState
pending_failure_of state id message none = state
pending_failure_of state id message (some item) =
    let next = record state {
      pending_operations =
          update_first (has_pending_id id) (failed_pending message) state.pending_operations;
    } in
    if nat_beq (suc item.attempts) automatic_mail_queue_attempt_limit
    then notify_paused_pending item next
    else next

unfoldable pub record_pending_failure : MailState → Text → Text → MailState
unfolding update_first decimal
record_pending_failure state id message =
    pending_failure_of state id message (find? (has_pending_id id) state.pending_operations)

abbrev pub outbox_failure_of : MailState → Text → Text → Option OutboxItem → MailState
outbox_failure_of state id message none = state
outbox_failure_of state id message (some item) =
    let next = record state {
      outbox = update_first (has_outbox_id id) (failed_outbox message) state.outbox;
    } in
    if nat_beq (suc item.attempts) automatic_mail_queue_attempt_limit
    then notify_paused_outbox item next
    else next

unfoldable pub record_outbox_failure : MailState → Text → Text → MailState
unfolding update_first decimal
record_outbox_failure state id message =
    outbox_failure_of state id message (find? (has_outbox_id id) state.outbox)
