-- ===== src/Queue/Drafts.antt =====
-- src/main/app-service.ts: drafts, and `sendMessage`. A draft that comes in has passed its schema.
use material_email.Prelude.{
  Bool, true, false, not, ◌&&◌, Option, none, some, List, [], ◌∷◌, ◌++◌, filter, find?, any, length,
  if◌then◌else◌,
}
use material_email.Prelude.Text.{Text, text, text_beq, decimal}
use material_email.Runtime.{Unicode}
use material_email.Mail.{ComposeDraft}
use material_email.Identities.Stored.{identity_for_draft}
use material_email.Sending.{
  SendResult, SendDisposition, was_queued, sent, partial, was_rejected, classify_send_result,
  describe_recipient_outcome,
}
use material_email.Queue.Model.{
  StoredAccount, AccountKind, imap, demo, MailState, Attempt, done, failed, Transport,
  no_recipients, draft_missing, rejected_by, Result, ok, err, Ran, notify, record_history, success,
  warning, info, failure, delivery, system, open_page, open_draft, retry_outbox_item, mail_page,
  created, deleted, draft_entity, message_entity, EntityType,
}
use material_email.Queue.Heads.{require_account, nonempty}
use material_email.Queue.Delivery.{
  has_draft_id, find_draft, put_draft, put_kind, quoted, same_draft_snapshot, text_same,
}
use material_email.Queue.Commands.{checked}

abbrev pub authorized : Attempt ComposeDraft → Result ComposeDraft
authorized (done draft) = ok draft
authorized (failed error) = err (rejected_by error)

abbrev pub has_recipient : ComposeDraft → Result (Unit {0})
has_recipient draft = elim (draft.to ++ draft.cc ++ draft.bcc) [
  | [] ↦ err no_recipients
  | recipient ∷ rest ↦ ok tt
]

abbrev pub id_or : Option Text → Text → Text
id_or none fresh = fresh
id_or (some id) fresh = id

-- What sending comes to: the answer, and the words of a network error.
pub record SendOutcome : Type 0 where
  pub answer : SendResult
  pub network_error : Text

module _ (t : Transport) where
  abbrev queued_answer : Text → Text → SendOutcome
  queued_answer error fresh = record {
    answer = record {
      message_id = text "outbox:" ++ fresh;
      queued = true;
      accepted = [];
      rejected = [];
    };
    network_error = t.mail_error_message error;
  }

  abbrev answered_by : Text → Attempt SendResult → SendOutcome
  answered_by fresh (done answer) = record { answer = answer; network_error = [] }
  answered_by fresh (failed error) = queued_answer error fresh

  abbrev sent_after : Text → Attempt (Unit {0}) → Attempt SendResult → SendOutcome
  sent_after fresh (done _) answer = answered_by fresh answer
  sent_after fresh (failed error) answer = queued_answer error fresh

module _ (u : Unicode) (t : Transport) where
  abbrev pub send_outcome :
      AccountKind → MailState → StoredAccount → ComposeDraft → Text → SendOutcome
  send_outcome demo state account draft fresh = record {
    answer = record {
      message_id = text "<" ++ fresh ++ text "@material-email.local>";
      queued = false;
      accepted = draft.to ++ draft.cc ++ draft.bcc;
      rejected = [];
    };
    network_error = [];
  }
  send_outcome imap state account draft fresh =
      sent_after t fresh (t.unlock account)
        (t.send_message account draft (identity_for_draft u state.identities draft))

-- the identifier under which a rejected draft stays
abbrev kept_id : Option Text → Bool → Text → Text
kept_id none unchanged fresh = fresh
kept_id (some id) unchanged fresh = if unchanged then id else fresh

abbrev keep_draft : MailState → ComposeDraft → SendResult → Text → MailState
keep_draft state draft answer id =
    notify failure delivery (some (open_draft draft.account_id id))
      (text "Message not sent; draft kept")
      (text "0 recipients accepted; "
        ++ decimal (length answer.rejected)
        ++ text " rejected. Review the recipients and retry from this unchanged composer.")
      (record_history (put_kind (any (has_draft_id id) state.drafts)) draft_entity id
        (quoted (text "Kept retryable draft ") draft (text " after delivery rejection"))
        (record state { drafts = put_draft id (record draft { id = some id }) state.drafts }))

-- A draft without an identifier has the same one as any other without.
abbrev pub drafts_after : Bool → ComposeDraft → List ComposeDraft → List ComposeDraft
drafts_after unchanged draft drafts =
    if unchanged
    then filter (λ (item : ComposeDraft). not (text_same item.id draft.id)) drafts
    else drafts

abbrev sent_label : SendResult → Text
sent_label answer =
    if answer.queued
    then text "Queued "
    else elim answer.rejected [ [] ↦ text "Sent " | other ∷ rest ↦ text "Partially sent " ]

abbrev sent_entity : Bool → EntityType
sent_entity true = draft_entity
sent_entity false = message_entity

abbrev tell_sent : SendDisposition → SendResult → MailState → MailState
tell_sent partial answer =
    notify warning delivery (some (open_page mail_page)) (text "Message partially sent")
      (describe_recipient_outcome answer)
tell_sent sent answer =
    notify success delivery (some (open_page mail_page)) (text "Message sent")
      (describe_recipient_outcome answer)
tell_sent was_rejected answer =
    notify success delivery (some (open_page mail_page)) (text "Message sent")
      (describe_recipient_outcome answer)
tell_sent was_queued answer =
    notify success delivery (some (open_page mail_page)) (text "Message sent")
      (describe_recipient_outcome answer)

abbrev queue_message : ComposeDraft → SendOutcome → Text → MailState → MailState
queue_message draft outcome now state =
    notify warning delivery (some (retry_outbox_item draft.account_id outcome.answer.message_id))
      (text "Message queued in Outbox") outcome.network_error
      (record state {
        outbox =
            state.outbox
            ++ (record {
              id = outcome.answer.message_id;
              draft = draft;
              created_at = now;
              attempts = 0;
              last_error = outcome.network_error;
            }
                ∷ []);
      })

-- the record of a message that is not rejected, with the draft taken away
abbrev logged : MailState → ComposeDraft → Bool → SendResult → MailState
logged state draft unchanged answer =
    record_history created (sent_entity answer.queued) answer.message_id
      (quoted (sent_label answer) draft [])
      (record state { drafts = drafts_after unchanged draft state.drafts })

abbrev pub finish_by :
    SendDisposition → MailState → ComposeDraft → Bool → SendOutcome → Text → Text → MailState
finish_by was_rejected state draft unchanged outcome fresh now =
    keep_draft state draft outcome.answer (kept_id (nonempty draft.id) unchanged fresh)
finish_by was_queued state draft unchanged outcome fresh now =
    queue_message draft outcome now (logged state draft unchanged outcome.answer)
finish_by sent state draft unchanged outcome fresh now =
    tell_sent sent outcome.answer (logged state draft unchanged outcome.answer)
finish_by partial state draft unchanged outcome fresh now =
    tell_sent partial outcome.answer (logged state draft unchanged outcome.answer)

-- What is written once the message is sent, queued or rejected. `snapshot` is the draft that was stored
-- when sending began.
unfoldable pub finish_sending :
    MailState → ComposeDraft → Option ComposeDraft → SendOutcome → Text → Text → MailState
unfolding same_draft_snapshot put_draft classify_send_result describe_recipient_outcome decimal
finish_sending state draft snapshot outcome fresh now =
    finish_by (classify_send_result outcome.answer) state draft
      (same_draft_snapshot (find_draft (nonempty draft.id) state.drafts) snapshot) outcome fresh now

module _ (u : Unicode) (t : Transport) where
  -- `fresh` is a new identifier, and `now` the time.
  unfoldable pub send_message : MailState → ComposeDraft → Text → Text → Ran SendResult
  unfolding identity_for_draft finish_sending
  send_message state parsed fresh now =
      let snapshot = find_draft (nonempty parsed.id) state.drafts in
      checked state (authorized (t.authorize_draft parsed snapshot)) λ draft.
        checked state (require_account state draft.account_id) λ account.
          checked state (has_recipient draft) λ _.
            let outcome = send_outcome u t account.kind state account draft fresh in
            record {
              state = finish_sending state draft snapshot outcome fresh now;
              result = ok outcome.answer;
            }

module _ (t : Transport) where
  unfoldable pub save_draft : MailState → ComposeDraft → Text → Ran ComposeDraft
  unfolding put_draft
  save_draft state parsed fresh = checked state (require_account state parsed.account_id) λ account.
      checked state
        (authorized (t.authorize_draft parsed (find_draft (nonempty parsed.id) state.drafts)))
        λ draft.
          let id = id_or draft.id fresh in
          let saved = record draft { id = some id } in
          checked state (require_account state saved.account_id) λ current. record {
            state =
                notify info delivery (some (open_draft saved.account_id id)) (text "Draft saved")
                  (text "The draft is stored locally on this computer.")
                  (record_history (put_kind (any (has_draft_id id) state.drafts)) draft_entity id
                    (quoted (text "Saved draft ") draft [])
                    (record state { drafts = put_draft id saved state.drafts }));
            result = ok saved;
          }

abbrev draft_named : Text → Text → ComposeDraft → Bool
draft_named account id draft = text_beq draft.account_id account && has_draft_id id draft

abbrev stored_draft : Option ComposeDraft → Result ComposeDraft
stored_draft none = err draft_missing
stored_draft (some draft) = ok draft

abbrev looked_up : MailState → Text → Text → Result StoredAccount → Result ComposeDraft
looked_up state account id (err e) = err e
looked_up state account id (ok found_account) =
    stored_draft (find? (draft_named account id) state.drafts)

unfoldable pub get_draft : MailState → Text → Text → Result ComposeDraft
get_draft state account id = looked_up state account id (require_account state account)

abbrev delete_found : MailState → Text → Option ComposeDraft → Ran Bool
delete_found state id none = record { state = state; result = ok false }
delete_found state id (some draft) = record {
  state =
      notify info system none (text "Draft deleted")
        (text "The local draft was removed; server mail was untouched.")
        (record_history deleted draft_entity id (quoted (text "Deleted draft ") draft [])
          (record state { drafts = filter (λ item. not (has_draft_id id item)) state.drafts }));
  result = ok true;
}

unfoldable pub delete_draft : MailState → Text → Text → Ran Bool
delete_draft state account id =
    checked state (require_account state account)
      λ current. delete_found state id (find? (draft_named account id) state.drafts)
