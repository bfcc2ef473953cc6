-- ===== src/Queue/Replayed.antt =====
-- `#replayPending` of src/main/app-service.ts as a whole.
use material_email.Prelude.{
  ◌≡◌, refl, sym, ap, subst, ◌∙◌, Bool, true, false, List, [], ◌∷◌, filter, any, Bool-cases, inl,
  inr,
}
use material_email.Prelude.Text.{Text}
use material_email.Runtime.{Unicode}
use material_email.Queue.Model.{
  StoredAccount, PendingOperation, OutboxItem, MailState, Transport, ok,
}
use material_email.Queue.Heads.{require_account, pending_of, outbox_of}
use material_email.Queue.Replay.{replay_operations, replay_pending}
use material_email.Queue.Outbox.{OutboxKeys, not_of, drained_outbox}
use material_email.Queue.OutboxReplay.{replay_outbox-IsDrained}
use material_email.Queue.PendingReplay.{
  PendingKeys, not_pending_of, drained_changes, IsReplayed, replay_operations-IsReplayed,
}

abbrev pub own_changes : Text → MailState → List PendingOperation
own_changes account state = filter (pending_of account) state.pending_operations

abbrev pub own_items : Text → MailState → List OutboxItem
own_items account state = filter (outbox_of account) state.outbox

-- The outbox waits for the changes before it.
abbrev pub items_left :
    Unicode → Transport → StoredAccount → MailState → List PendingOperation → List OutboxItem
items_left u t account state [] =
    drained_outbox u t account state.identities (own_items account.id state)
items_left u t account state (operation ∷ operations) = own_items account.id state

-- A state of queues whose items have identifiers of their own, with the account in it.
pub record IsQueueState (account current : StoredAccount) (state : MailState) : Type 0 where
  pub pending_keys : PendingKeys state.pending_operations
  pub outbox_keys : OutboxKeys state.outbox
  pub known : require_account state account.id ≡ ok current

-- The queues after a replay: the account's are worked off from their heads, the changes first, and
-- those of the others are as they were.
pub record IsReplayOf (u : Unicode) (t : Transport) (account : StoredAccount)
    (before after : MailState) : Type 0 where
  pub changes :
      own_changes account.id after
      ≡ drained_changes t account before (own_changes account.id before)
  pub items :
      own_items account.id after
      ≡ items_left u t account before
          (drained_changes t account before (own_changes account.id before))
  pub other_changes :
      filter (not_pending_of account.id) after.pending_operations
      ≡ filter (not_pending_of account.id) before.pending_operations
  pub other_items :
      filter (not_of account.id) after.outbox ≡ filter (not_of account.id) before.outbox

any_of_filter :
    (p : PendingOperation → Bool) (xs ys : List PendingOperation)
    → filter p xs ≡ ys
    → any p xs ≡ (elim ys [ [] ↦ false | y ∷ rest ↦ true ])
any_of_filter p [] [] h = refl
any_of_filter p [] (y ∷ ys) h = absurd (cc)
any_of_filter p (x ∷ xs) ys h = elim (Bool-cases (p x)) [
  | inl is_p ↦
      let e : x ∷ filter p xs ≡ ys = rw is_p at h in
      subst (λ l. any p (x ∷ xs) ≡ (elim l [ [] ↦ false | y ∷ rest ↦ true ])) e (rw is_p refl)
  | inr not_p ↦ rw not_p (any_of_filter p xs ys (rw not_p at h))
]

-- If the items of both queues have identifiers of their own and the account is known, then a replay
-- works the account's waiting changes off from the head until one is in conflict, has failed too
-- often or fails now, works its outbox off in the same way only if no change is left, records the
-- failure at the head where it ends, and leaves the queues of other accounts as they are.
pub replay_pending-IsReplayOf :
    (u : Unicode) (t : Transport) (account current : StoredAccount) (fresh : List Text)
    (state : MailState)
    → IsQueueState account current state
    → IsReplayOf u t account state (replay_pending u t account fresh state)
unfolding replay_pending
replay_pending-IsReplayOf u t account current fresh state queues =
    go (drained_changes t account state (own_changes account.id state))
      (replay_operations-IsReplayed t state account current (own_changes account.id state) state
        queues.pending_keys queues.known refl)
      refl
  where
    between : MailState
    between = replay_operations t state account (own_changes account.id state) state

    go :
        (left : List PendingOperation)
        → IsReplayed t state account current state between left
        → drained_changes t account state (own_changes account.id state) ≡ left
        → IsReplayOf u t account state (replay_pending u t account fresh state)
    go [] replayed e =
        let drained =
          replay_outbox-IsDrained u t account current state.identities
            (own_items account.id between) fresh between
            (subst OutboxKeys (sym replayed.rest.outbox) queues.outbox_keys)
            (rw replayed.rest.accounts queues.known) replayed.rest.identities refl in
        rw (any_of_filter (pending_of account.id) between.pending_operations [] replayed.own)
          record {
            changes =
                ap (filter (pending_of account.id)) drained.rest.pending_operations
                ∙ replayed.own
                ∙ sym e;
            items = rw e (
                drained.own
                ∙ ap
                    (λ l.
                      drained_outbox u t account state.identities (filter (outbox_of account.id) l))
                    replayed.rest.outbox);
            other_changes =
                ap (filter (not_pending_of account.id)) drained.rest.pending_operations
                ∙ replayed.others;
            other_items = drained.others ∙ ap (filter (not_of account.id)) replayed.rest.outbox;
          }
    go (operation ∷ operations) replayed e =
        rw
          (any_of_filter (pending_of account.id) between.pending_operations (operation ∷ operations)
            replayed.own)
          record {
            changes = replayed.own ∙ sym e;
            items = rw e (ap (filter (outbox_of account.id)) replayed.rest.outbox);
            other_changes = replayed.others;
            other_items = ap (filter (not_of account.id)) replayed.rest.outbox;
          }
