-- ===== src/Queue/Losses.antt =====
-- What becomes of stored drafts when a message is sent (sendMessage of src/main/app-service.ts).
use material_email.Prelude.{
  ◌≡◌, ◌≢◌, refl, sym, ap, subst, ◌∙◌, true, not, Option, none, some, List, filter, All, All-map,
  filter_sound,
}
use material_email.Prelude.Text.{Text, text_eq}
use material_email.Runtime.{Unicode}
use material_email.Mail.{ComposeDraft}
use material_email.Sending.{
  SendDisposition, was_queued, sent, partial, was_rejected, classify_send_result,
}
use material_email.Queue.Model.{StoredAccount, MailState, done, Transport, ok}
use material_email.Queue.Heads.{require_account, nonempty}
use material_email.Queue.Delivery.{text_same, same_draft_snapshot, find_draft}
use material_email.Queue.Drafts.{
  SendOutcome, send_outcome, finish_by, finish_sending, has_recipient, send_message,
}

no_id_left :
    (drafts : List ComposeDraft)
    → All
        (λ (d : ComposeDraft). d.id ≢ none)
        (filter (λ (item : ComposeDraft). not (text_same item.id none)) drafts)
no_id_left drafts =
    All-map {Q = λ (d : ComposeDraft). d.id ≢ none} (λ (d : ComposeDraft) h e. differs d.id e h)
      (filter (λ (item : ComposeDraft). not (text_same item.id none)) drafts)
      (filter_sound (λ (item : ComposeDraft). not (text_same item.id none)) drafts)
  where
    differs : (id : Option Text) → id ≡ none → not (text_same id none) ≡ true → ⊥
    differs none e h = cc
    differs (some id) e h = cc

finish_by-no_id :
    (d : SendDisposition) (state : MailState) (draft : ComposeDraft) (outcome : SendOutcome)
    (fresh now : Text)
    → draft.id ≡ none
    → d ≢ was_rejected
    → All
        (λ (d : ComposeDraft). d.id ≢ none)
        (finish_by d state draft true outcome fresh now).drafts
finish_by-no_id was_rejected state draft outcome fresh now e h = absurd (h refl)
finish_by-no_id was_queued state draft outcome fresh now e h = rw e (no_id_left state.drafts)
finish_by-no_id sent state draft outcome fresh now e h = rw e (no_id_left state.drafts)
finish_by-no_id partial state draft outcome fresh now e h = rw e (no_id_left state.drafts)

-- Where the guards pass, sending is writing the outcome.
send_message-finish_sending :
    (u : Unicode) (t : Transport) (state : MailState) (parsed draft : ComposeDraft)
    (account : StoredAccount) (fresh now : Text)
    → t.authorize_draft parsed (find_draft (nonempty parsed.id) state.drafts) ≡ done draft
    → require_account state draft.account_id ≡ ok account
    → has_recipient draft ≡ ok tt
    → (send_message u t state parsed fresh now).state
      ≡ finish_sending state draft
          (find_draft (nonempty parsed.id) state.drafts)
          (send_outcome u t account.kind state account draft fresh)
          fresh
          now
unfolding send_message
send_message-finish_sending u t state parsed draft account fresh now allowed known to =
    rw allowed (rw known (rw to refl))

no_snapshot :
    (drafts : List ComposeDraft) (parsed : ComposeDraft)
    → parsed.id ≡ none
    → find_draft (nonempty parsed.id) drafts ≡ none
no_snapshot drafts parsed e = rw e refl

finish_sending-no_id :
    (state : MailState) (draft : ComposeDraft) (outcome : SendOutcome) (fresh now : Text)
    → draft.id ≡ none
    → classify_send_result outcome.answer ≢ was_rejected
    → All
        (λ (d : ComposeDraft). d.id ≢ none)
        (finish_sending state draft none outcome fresh now).drafts
unfolding finish_sending
finish_sending-no_id state draft outcome fresh now e h =
    subst
      (λ b.
        All (λ (d : ComposeDraft). d.id ≢ none)
          (finish_by (classify_send_result outcome.answer) state draft b outcome fresh now).drafts)
      (sym same)
      (finish_by-no_id (classify_send_result outcome.answer) state draft outcome fresh now e h)
  where
    none_same : same_draft_snapshot none none ≡ true
    none_same = unfold same_draft_snapshot in refl

    same : same_draft_snapshot (find_draft (nonempty draft.id) state.drafts) none ≡ true
    same = ap (λ o. same_draft_snapshot o none) (no_snapshot state.drafts draft e) ∙ none_same

-- If a draft without an identifier is authorized as one without, its account is known, it names a
-- recipient, and it is not rejected by all of them, then sending it leaves no stored draft without an
-- identifier, whatever drafts without an identifier were stored.
pub send_message_forgets_unsaved :
    (u : Unicode) (t : Transport) (state : MailState) (parsed draft : ComposeDraft)
    (account : StoredAccount) (fresh now : Text)
    → parsed.id ≡ none
    → draft.id ≡ none
    → t.authorize_draft parsed none ≡ done draft
    → require_account state draft.account_id ≡ ok account
    → has_recipient draft ≡ ok tt
    → classify_send_result (send_outcome u t account.kind state account draft fresh).answer
      ≢ was_rejected
    → All (λ (d : ComposeDraft). d.id ≢ none) (send_message u t state parsed fresh now).state.drafts
send_message_forgets_unsaved u t state parsed draft account fresh now unsaved unsaved' allowed known
      to accepted =
    subst (λ (s : MailState). All (λ (d : ComposeDraft). d.id ≢ none) s.drafts)
      (sym (
        send_message-finish_sending u t state parsed draft account fresh now
          (ap (t.authorize_draft parsed) (no_snapshot state.drafts parsed unsaved) ∙ allowed) known
          to
        ∙ ap
            (λ snapshot.
              finish_sending state draft snapshot
                (send_outcome u t account.kind state account draft fresh) fresh now)
            (no_snapshot state.drafts parsed unsaved)))
      (finish_sending-no_id state draft (send_outcome u t account.kind state account draft fresh)
        fresh now unsaved' accepted)
