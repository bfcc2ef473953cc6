-- ===== src/Queue/Cancelled.antt =====
-- `cancelOutbox` of src/main/app-service.ts.
use material_email.Prelude.{
  ◌≡◌, refl, Bool, true, false, not, Option, none, some, List, [], ◌∷◌, filter, find?, any,
  contains, Bool-cases, inl, inr,
}
use mathlib.Core.List.{Mem, mem-cons_self, mem-cons_of_mem, mem-append_right}
use material_email.Prelude.Text.{Text, text_eq}
use material_email.Mail.{ComposeDraft}
use material_email.Queue.Model.{StoredAccount, OutboxItem, MailState, ok}
use material_email.Queue.Heads.{require_account, has_outbox_id, nonempty, update_first}
use material_email.Queue.Delivery.{has_draft_id, put_draft}
use material_email.Queue.Commands.{cancel_outbox, outbox_named, returned_draft}

mem-update_first :
    (p : ComposeDraft → Bool) (new : ComposeDraft) (l : List ComposeDraft)
    → any p l ≡ true
    → Mem new (update_first p (λ d. new) l)
unfolding update_first
mem-update_first p new [] h = absurd (cc)
mem-update_first p new (d ∷ l) h = elim (Bool-cases (p d)) [
  | inl here ↦ rw here mem-cons_self
  | inr later ↦ rw later (mem-cons_of_mem d (mem-update_first p new l (rw later at h)))
]

put_draft-has :
    (id : Text) (new : ComposeDraft) (l : List ComposeDraft) → Mem new (put_draft id new l)
unfolding put_draft
put_draft-has id new l = elim (Bool-cases (any (has_draft_id id) l)) [
  | inl there ↦ rw there (mem-update_first (has_draft_id id) new l there)
  | inr missing ↦ rw missing (mem-append_right l mem-cons_self)
]

returned_draft-has :
    (new : ComposeDraft) (l : List ComposeDraft) (id : Option Text)
    → Mem new (returned_draft new l id)
returned_draft-has new l none = mem-append_right l mem-cons_self
returned_draft-has new l (some id) = put_draft-has id new l

-- If no operation of the account's queue is running, the account is known and the item is in its
-- outbox, then cancelling the item returns its draft, takes from the outbox what has its identifier
-- and nothing else, and stores the draft, every field of it as it was queued, among the drafts.
pub cancel_outbox_returns :
    (flights : List Text) (state : MailState) (account outbox_id : Text) (stored : StoredAccount)
    (item : OutboxItem)
    → contains flights account ≡ false
    → require_account state account ≡ ok stored
    → find? (outbox_named account outbox_id) state.outbox ≡ some item
    → ((cancel_outbox flights state account outbox_id).result ≡ ok item.draft)
      × ((cancel_outbox flights state account outbox_id).state.outbox
          ≡ filter (λ other. not (has_outbox_id item.id other)) state.outbox)
      × Mem item.draft (cancel_outbox flights state account outbox_id).state.drafts
unfolding cancel_outbox
cancel_outbox_returns flights state account outbox_id stored item free known there = rw (free) (
    rw known
      (rw there (refl, refl, returned_draft-has item.draft state.drafts (nonempty item.draft.id))))
