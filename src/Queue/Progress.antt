-- ===== src/Queue/Progress.antt =====
-- What a replay of the queues (`#replayPending` of src/main/app-service.ts) comes to in the end.
use material_email.Prelude.{
  ℕ, suc, ◌≡◌, ◌≤◌, refl, sym, ap, subst, ◌∙◌, false, none, List, [], ◌∷◌, arith, map, drop, All,
}
use material_email.Prelude.Text.{Text}
use material_email.Runtime.{Unicode}
use material_email.Queue.Model.{
  automatic_mail_queue_attempt_limit, StoredAccount, PendingOperation, OutboxItem, MailState,
  Transport,
}
use material_email.Queue.Heads.{failed_pending, failed_outbox}
use material_email.Queue.Replay.{replay_pending}
use material_email.Queue.Draining.{taken, drain-All, drain-empties, map-drain}
use material_email.Queue.Outbox.{outbox_stops, send_error}
use material_email.Queue.PendingReplay.{drained_changes, change_stops, change_error}
use material_email.Queue.Replayed.{
  own_changes, own_items, items_left, IsQueueState, replay_pending-IsReplayOf,
}

-- the attempts of every waiting change and of every item of the account's outbox are within the limit
abbrev pub AreWithinLimit : Text → MailState → Type 0
AreWithinLimit account state =
    All (λ (o : PendingOperation). o.attempts ≤ automatic_mail_queue_attempt_limit)
      (own_changes account state)
    × All (λ (i : OutboxItem). i.attempts ≤ automatic_mail_queue_attempt_limit)
        (own_items account state)

items_left-All :
    (u : Unicode) (t : Transport) (account : StoredAccount) (state : MailState)
    (left : List PendingOperation)
    → All
        (λ (i : OutboxItem). i.attempts ≤ automatic_mail_queue_attempt_limit)
        (own_items account.id state)
    → All
        (λ (i : OutboxItem). i.attempts ≤ automatic_mail_queue_attempt_limit)
        (items_left u t account state left)
items_left-All u t account state [] h =
    drain-All outbox_stops (send_error u t account state.identities) failed_outbox
      (λ (i : OutboxItem). i.attempts ≤ automatic_mail_queue_attempt_limit)
      (λ e i go k. ground arith) (own_items account.id state) h
items_left-All u t account state (operation ∷ left) h = h

-- If the items of both queues have identifiers of their own, the account is known, and no item of the
-- account has more failed attempts than the limit for automatic ones, then none has more after a
-- replay, whatever the server answers.
pub replay_pending-AreWithinLimit :
    (u : Unicode) (t : Transport) (account current : StoredAccount) (fresh : List Text)
    (state : MailState)
    → IsQueueState account current state
    → AreWithinLimit account.id state
    → AreWithinLimit account.id (replay_pending u t account fresh state)
replay_pending-AreWithinLimit u t account current fresh state queues (changes, items) =
    let replay = replay_pending-IsReplayOf u t account current fresh state queues in
    (
      subst (All (λ (o : PendingOperation). o.attempts ≤ automatic_mail_queue_attempt_limit))
          (sym replay.changes)
          (drain-All (change_stops state) (change_error t account) failed_pending
            (λ (o : PendingOperation). o.attempts ≤ automatic_mail_queue_attempt_limit)
            (λ e o go k. attempts_below o go) (own_changes account.id state) changes),
      subst (All (λ (i : OutboxItem). i.attempts ≤ automatic_mail_queue_attempt_limit))
          (sym replay.items)
          (items_left-All u t account state
            (drained_changes t account state (own_changes account.id state)) items),
    )
  where
    attempts_below :
        (o : PendingOperation)
        → change_stops state o ≡ false
        → suc o.attempts ≤ automatic_mail_queue_attempt_limit
    attempts_below o go = ground arith

-- If the items of both queues have identifiers of their own, the account is known, no waiting change
-- of the account is in conflict, no item has reached the limit of failed attempts, and the server
-- takes every change and every message of the account, then a replay empties the account's queues.
pub replay_pending_empties :
    (u : Unicode) (t : Transport) (account current : StoredAccount) (fresh : List Text)
    (state : MailState)
    → IsQueueState account current state
    → All
        (λ o. (change_stops state o ≡ false) × (change_error t account o ≡ none))
        (own_changes account.id state)
    → All
        (λ i. (outbox_stops i ≡ false) × (send_error u t account state.identities i ≡ none))
        (own_items account.id state)
    → (own_changes account.id (replay_pending u t account fresh state) ≡ [])
      × (own_items account.id (replay_pending u t account fresh state) ≡ [])
replay_pending_empties u t account current fresh state queues changes items =
    let replay = replay_pending-IsReplayOf u t account current fresh state queues in
    let no_change : drained_changes t account state (own_changes account.id state) ≡ [] =
      drain-empties (change_stops state) (change_error t account) failed_pending
        (own_changes account.id state) changes in
    (
      replay.changes ∙ no_change,
      replay.items
          ∙ ap (items_left u t account state) no_change
          ∙ drain-empties outbox_stops (send_error u t account state.identities) failed_outbox
              (own_items account.id state) items,
    )

items_left_behind :
    (u : Unicode) (t : Transport) (account : StoredAccount) (state : MailState)
    (left : List PendingOperation)
    → (n : ℕ) × (map (λ (i : OutboxItem). i.id) (items_left u t account state left)
        ≡ drop n (map (λ (i : OutboxItem). i.id) (own_items account.id state)))
items_left_behind u t account state [] = (
  taken outbox_stops (send_error u t account state.identities) failed_outbox
      (own_items account.id state),
  map-drain outbox_stops (send_error u t account state.identities) failed_outbox
      (λ (i : OutboxItem). i.id) (λ e i. refl) (own_items account.id state),
)
items_left_behind u t account state (operation ∷ left) = (0, refl)

-- If the items of both queues have identifiers of their own and the account is known, then what a
-- replay leaves of each of the account's queues are its last items in their order: nothing overtakes
-- an earlier item, and nothing is lost from the middle.
pub replay_pending_in_order :
    (u : Unicode) (t : Transport) (account current : StoredAccount) (fresh : List Text)
    (state : MailState)
    → IsQueueState account current state
    → ((m : ℕ) × (map
            (λ (o : PendingOperation). o.id)
            (own_changes account.id (replay_pending u t account fresh state))
          ≡ drop m (map (λ (o : PendingOperation). o.id) (own_changes account.id state))))
      × ((n : ℕ) × (map
              (λ (i : OutboxItem). i.id)
              (own_items account.id (replay_pending u t account fresh state))
            ≡ drop n (map (λ (i : OutboxItem). i.id) (own_items account.id state))))
replay_pending_in_order u t account current fresh state queues =
    let replay = replay_pending-IsReplayOf u t account current fresh state queues in
    let (n, behind) =
      items_left_behind u t account state
        (drained_changes t account state (own_changes account.id state)) in
    (
      (
        taken (change_stops state) (change_error t account) failed_pending
            (own_changes account.id state),
        ap (map (λ (o : PendingOperation). o.id)) replay.changes
            ∙ map-drain (change_stops state) (change_error t account) failed_pending
                (λ (o : PendingOperation). o.id) (λ e o. refl) (own_changes account.id state),
      ),
      (n, ap (map (λ (i : OutboxItem). i.id)) replay.items ∙ behind),
    )
