-- ===== src/Queue/Refusals.antt =====
-- The guards of the manual retries (src/main/app-service.ts).
use material_email.Prelude.{
  ◌≡◌, refl, true, false, ◌⊎◌, Option, none, some, List, find?, Bool-cases, Option-cases, inl, inr,
  contains,
}
use material_email.Prelude.Text.{Text, text_eq}
use material_email.Runtime.{Unicode}
use material_email.Queue.Model.{PendingOperation, MailState, Transport, Result, ok, err, Ran}
use material_email.Queue.Heads.{
  require_account, queue_head, same_head, assert_queue_head, pending_operation_conflict,
  outbox_head, pending_head,
}
use material_email.Queue.Replay.{succeeded, is_some}
use material_email.Queue.Commands.{
  checked, with_queue_flight, begin_retry, retry_outbox, retry_pending_operation, unlocked,
  no_conflict, outbox_named, pending_named, found,
}

-- An operation that throws and leaves the state as it was.
abbrev pub IsRefused {ℓ} : {A : Type ℓ} → MailState → Ran A → Type 0
IsRefused state ran = (ran.state ≡ state) × (succeeded ran.result ≡ false)

checked-IsRefused :
    {A B : Type 0} (state : MailState) (r : Result A) (next : A → Ran B)
    → ((a : A) → r ≡ ok a → IsRefused state (next a))
    → IsRefused state (checked state r next)
checked-IsRefused state (ok a) next h = h a refl
checked-IsRefused state (err e) next h = (refl, refl)

with_queue_flight-IsRefused :
    {A : Type 0} (flights : List Text) (account : Text) (state : MailState) (ran : Ran A)
    → (contains flights account ≡ false → IsRefused state ran)
    → IsRefused state (with_queue_flight flights account state ran)
with_queue_flight-IsRefused flights account state ran h =
    elim (Bool-cases (contains flights account)) [
      | inl running ↦ rw running (refl, refl)
      | inr free ↦ rw free (h free)
    ]

-- What follows an operation that is refused is not run.
begun-IsRefused :
    {A B : Type 0} (state begun : MailState) (r : Result A) (next : A → Ran B)
    → begun ≡ state
    → succeeded r ≡ false
    → IsRefused state (checked begun r next)
begun-IsRefused state begun (ok a) next same failed = absurd (cc)
begun-IsRefused state begun (err e) next same failed = (same, refl)

-- Where an operation of the account's queue is running, or the item is not the head of the account's
-- queue, a manual retry of an item of the outbox throws and writes nothing.
pub retry_outbox-IsRefused :
    (u : Unicode) (t : Transport) (flights : List Text) (state : MailState)
    (account outbox_id fresh : Text)
    → ((contains flights account ≡ true)
        ⊎ (same_head (queue_head state account) (outbox_head outbox_id) ≡ false))
    → IsRefused state (retry_outbox u t flights state account outbox_id fresh)
unfolding retry_outbox begin_retry
retry_outbox-IsRefused u t flights state account outbox_id fresh (inl running) =
    rw running (refl, refl)
retry_outbox-IsRefused u t flights state account outbox_id fresh (inr behind) =
    let begun = begin_retry t flights state account outbox_id in
    let (same, failed) : IsRefused state begun =
      with_queue_flight-IsRefused flights account state _ λ free.
        checked-IsRefused state (require_account state account) _ λ stored known.
          checked-IsRefused state (unlocked (t.unlock stored)) _ λ open_ opened.
            checked-IsRefused state (found (find? (outbox_named account outbox_id) state.outbox)) _
              λ item there. rw behind (refl, refl) in
    begun-IsRefused state begun.state begun.result _ same failed

-- Where an operation of the account's queue is running, the change is not the head of the account's
-- queue, or it is in conflict with the folder as it is now, a manual retry of the change throws and
-- writes nothing.
pub retry_pending_operation-IsRefused :
    (t : Transport) (flights : List Text) (state : MailState) (account operation_id : Text)
    → ((contains flights account ≡ true)
        ⊎ (same_head (queue_head state account) (pending_head operation_id) ≡ false)
        ⊎ ((operation : PendingOperation)
            → find? (pending_named account operation_id) state.pending_operations ≡ some operation
            → is_some (pending_operation_conflict state operation) ≡ true))
    → IsRefused state (retry_pending_operation t flights state account operation_id)
unfolding retry_pending_operation
retry_pending_operation-IsRefused t flights state account operation_id (inl running) =
    rw running (refl, refl)
retry_pending_operation-IsRefused t flights state account operation_id (inr (inl behind)) =
    with_queue_flight-IsRefused flights account state _ λ free.
      checked-IsRefused state (require_account state account) _ λ stored known.
        checked-IsRefused state (unlocked (t.unlock stored)) _ λ open_ opened.
          checked-IsRefused state
            (found (find? (pending_named account operation_id) state.pending_operations)) _
            λ item there. rw behind (refl, refl)
retry_pending_operation-IsRefused t flights state account operation_id (inr (inr conflicts)) =
    with_queue_flight-IsRefused flights account state _ λ free.
      checked-IsRefused state (require_account state account) _ λ stored known.
        checked-IsRefused state (unlocked (t.unlock stored)) _ λ open_ opened.
          checked-IsRefused state
            (found (find? (pending_named account operation_id) state.pending_operations)) _
            λ item there.
              checked-IsRefused state (assert_queue_head state account (pending_head operation_id))
                _
                λ ahead first.
                  checked-IsRefused state (no_conflict (pending_operation_conflict state item)) _
                    λ clear no_reason. absurd (
                      contradiction item there
                        (conflicts item (
                          found_some item
                            (find? (pending_named account operation_id) state.pending_operations)
                            there))
                        no_reason)
  where
    found_some :
        (item : PendingOperation) (o : Option PendingOperation) → found o ≡ ok item → o ≡ some item
    found_some item none h = absurd (cc)
    found_some item (some other) h = cc

    contradiction :
        (item : PendingOperation)
        → found (find? (pending_named account operation_id) state.pending_operations) ≡ ok item
        → is_some (pending_operation_conflict state item) ≡ true
        → {a : Unit {0}} → no_conflict (pending_operation_conflict state item) ≡ ok a
        → ⊥
    contradiction item there h k = elim (Option-cases (pending_operation_conflict state item)) [
      | inl clear ↦ let e = rw clear at h in cc
      | inr (reason, conflict) ↦ let e = rw conflict at k in cc
    ]
