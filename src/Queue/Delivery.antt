-- ===== src/Queue/Delivery.antt =====
-- src/main/app-service.ts: the delivery of one item of the outbox, and the replay of the queues of
-- an account.
use material_email.Prelude.{
  Bool, true, false, not, ◌&&◌, Option, none, some, List, [], ◌∷◌, ◌++◌, any, find?, filter,
  if◌then◌else◌,
}
use material_email.Prelude.Text.{Text, text, text_beq, text_eq, is_empty}
use material_email.Runtime.{Unicode}
use material_email.Mail.{ComposeDraft}
use material_email.Sending.{
  SendResult, SendDisposition, was_queued, sent, partial, was_rejected, classify_send_result,
  describe_recipient_outcome,
}
use material_email.Identities.Stored.{identity_for_draft}
use material_email.Queue.Model.{
  StoredAccount, OutboxItem, MailState, Attempt, done, failed, Transport, changed_in_flight,
  rejected_by, Result, ok, err, Ran, notify, record_history, success, warning, failure, system,
  created, updated, draft_entity, message_entity, HistoryKind,
}
use material_email.Queue.Heads.{
  require_account, outbox_of, has_outbox_id, update_first, record_outbox_failure, nonempty,
}

abbrev pub text_same : Option Text → Option Text → Bool
text_same none none = true
text_same none (some t) = false
text_same (some s) none = false
text_same (some s) (some t) = text_beq s t

abbrev pub same_string_list : List Text → List Text → Bool
same_string_list [] [] = true
same_string_list [] (t ∷ ts) = false
same_string_list (s ∷ ss) [] = false
same_string_list (s ∷ ss) (t ∷ ts) = text_beq s t && same_string_list ss ts

abbrev pub same_lists : Option (List Text) → Option (List Text) → Bool
same_lists none none = true
same_lists none (some ts) = false
same_lists (some ss) none = false
same_lists (some ss) (some ts) = same_string_list ss ts

abbrev pub same_draft : ComposeDraft → ComposeDraft → Bool
same_draft left right =
    text_same left.id right.id
    && text_beq left.account_id right.account_id
    && same_string_list left.to right.to
    && same_string_list left.cc right.cc
    && same_string_list left.bcc right.bcc
    && text_beq left.subject right.subject
    && text_beq left.text right.text
    && text_same left.in_reply_to right.in_reply_to
    && same_lists left.references right.references
    && same_string_list left.attachments right.attachments

unfoldable pub same_draft_snapshot : Option ComposeDraft → Option ComposeDraft → Bool
unfolding text_beq
same_draft_snapshot none none = true
same_draft_snapshot none (some right) = false
same_draft_snapshot (some left) none = false
same_draft_snapshot (some left) (some right) = same_draft left right

abbrev pub has_draft_id : Text → ComposeDraft → Bool
has_draft_id id draft = text_same draft.id (some id)

-- The draft takes the place of the first one with its identifier, or comes last.
unfoldable pub put_draft : Text → ComposeDraft → List ComposeDraft → List ComposeDraft
unfolding update_first
put_draft id draft drafts =
    if any (has_draft_id id) drafts
    then update_first (has_draft_id id) (λ d. draft) drafts
    else drafts ++ draft ∷ []

abbrev pub find_draft : Option Text → List ComposeDraft → Option ComposeDraft
find_draft none drafts = none
find_draft (some id) drafts = find? (has_draft_id id) drafts

abbrev pub subject_or : ComposeDraft → Text
subject_or draft = if is_empty draft.subject then text "(No subject)" else draft.subject

abbrev pub quoted : Text → ComposeDraft → Text → Text
quoted before draft after = before ++ (0x201c ∷ subject_or draft) ++ (0x201d ∷ after)

abbrev pub put_kind : Bool → HistoryKind
put_kind true = updated
put_kind false = created

abbrev pub is_kept : Option ComposeDraft → ComposeDraft → Bool
is_kept none queued = true
is_kept (some current) queued = same_draft_snapshot (some current) (some queued)

abbrev pub retained_id_of : Option Text → Bool → Text → Text
retained_id_of none kept fresh = fresh
retained_id_of (some id) kept fresh = if kept then id else fresh

-- the identifier under which a rejected message is kept
unfoldable pub retained_id : MailState → ComposeDraft → Text → Text
unfolding same_draft_snapshot
retained_id state queued fresh =
    let given = nonempty queued.id in
    retained_id_of given (is_kept (find_draft given state.drafts) queued) fresh

unfoldable pub keep_rejected : MailState → OutboxItem → SendResult → Text → MailState
unfolding retained_id put_draft describe_recipient_outcome
keep_rejected state queued answer fresh =
    let id = retained_id state queued.draft fresh in
    notify failure system none (text "Outbox message not sent; draft kept")
      (describe_recipient_outcome answer)
      (record_history (put_kind (any (has_draft_id id) state.drafts)) draft_entity id
        (quoted (text "Kept rejected Outbox message ") queued.draft (text " as a draft"))
        (record state {
          drafts = put_draft id (record queued.draft { id = some id }) state.drafts;
        }))

abbrev tell_delivered : SendDisposition → SendResult → MailState → MailState
tell_delivered partial answer =
    notify warning system none (text "Outbox message partially sent")
      (describe_recipient_outcome answer)
tell_delivered was_queued answer =
    notify success system none (text "Outbox message sent") (describe_recipient_outcome answer)
tell_delivered sent answer =
    notify success system none (text "Outbox message sent") (describe_recipient_outcome answer)
tell_delivered was_rejected answer =
    notify success system none (text "Outbox message sent") (describe_recipient_outcome answer)

abbrev pub settle_by : SendDisposition → MailState → OutboxItem → SendResult → Text → MailState
settle_by was_rejected state queued answer fresh = keep_rejected state queued answer fresh
settle_by was_queued state queued answer fresh = tell_delivered was_queued answer (
    record_history updated message_entity answer.message_id
      (quoted (text "Delivered queued message ") queued.draft []) state)
settle_by sent state queued answer fresh = tell_delivered sent answer (
    record_history updated message_entity answer.message_id
      (quoted (text "Delivered queued message ") queued.draft []) state)
settle_by partial state queued answer fresh = tell_delivered partial answer (
    record_history updated message_entity answer.message_id
      (quoted (text "Delivered queued message ") queued.draft []) state)

abbrev pub without_outbox : Text → MailState → MailState
without_outbox id state = record state {
  outbox = filter (λ item. not (has_outbox_id id item)) state.outbox;
}

abbrev settle_found :
    MailState → OutboxItem → SendResult → Text → Option OutboxItem → Result MailState
settle_found state item answer fresh none = err changed_in_flight
settle_found state item answer fresh (some queued) =
    ok (settle_by (classify_send_result answer) (without_outbox item.id state) queued answer fresh)

abbrev settle_for :
    MailState
    → StoredAccount
    → OutboxItem
    → SendResult
    → Text
    → Result StoredAccount
    → Result MailState
settle_for state account item answer fresh (err e) = err e
settle_for state account item answer fresh (ok current) = settle_found state item answer fresh (
    find? (λ candidate. has_outbox_id item.id candidate && outbox_of account.id candidate)
      state.outbox)

-- What an answered delivery writes. `fresh` is a new identifier for a draft.
unfoldable pub settle_delivery :
    MailState → StoredAccount → OutboxItem → SendResult → Text → Result MailState
unfolding classify_send_result describe_recipient_outcome keep_rejected
settle_delivery state account item answer fresh =
    settle_for state account item answer fresh (require_account state account.id)

-- An update that throws leaves the state as it was.
abbrev pub after_update : MailState → SendResult → Result MailState → Ran SendResult
after_update state answer (ok next) = record { state = next; result = ok answer }
after_update state answer (err e) = record { state = state; result = err e }

module _ (t : Transport) where
  abbrev pub delivered :
      MailState → StoredAccount → OutboxItem → Text → Attempt SendResult → Ran SendResult
  delivered state account item fresh (failed error) = record {
    state = record_outbox_failure state item.id (t.mail_error_message error);
    result = err (rejected_by (t.mail_error_message error));
  }
  delivered state account item fresh (done answer) =
      after_update state answer (settle_delivery state account item answer fresh)

module _ (u : Unicode) (t : Transport) where
  unfoldable pub deliver_outbox_item :
      MailState → StoredAccount → OutboxItem → Text → Ran SendResult
  unfolding settle_delivery record_outbox_failure identity_for_draft
  deliver_outbox_item state account item fresh =
      delivered t state account item fresh
        (t.send_message account item.draft (identity_for_draft u state.identities item.draft))
