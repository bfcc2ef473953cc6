-- ===== src/Queue/PendingReplay.antt =====
-- The first loop of `#replayPending` (src/main/app-service.ts) against the abstract queue.
use material_email.Prelude.{
  suc, nat_beq, ◌≡◌, ◌≢◌, refl, subst, ◌∙◌, Bool, true, not, ◌||◌, Option, none, some, List, [],
  ◌∷◌, filter, find?, AllPairs-filter, Bool-cases, inl, inr, if◌then◌else◌, All, filter_sound,
}
use material_email.Prelude.Text.{Text}
use material_email.Queue.Model.{
  automatic_mail_queue_attempt_limit, StoredAccount, PendingOperation, MailState, Transport,
  Attempt, done, failed, ok,
}
use material_email.Queue.Heads.{
  require_account, pending_of, has_pending_id, failed_pending, update_first, record_pending_failure,
  pending_operation_conflict, perform_pending_operation,
}
use material_email.Queue.Replay.{is_some, is_paused, performed, replay_turn, replay_operations}
use material_email.Queue.Lists.{
  HasDistinctKeys, find?-first, filter-without_first, filter-update_first,
}
use material_email.Queue.Draining.{drain, left_of}
use material_email.Queue.Outbox.{error_of}

abbrev pub PendingKeys : List PendingOperation → Type 0
PendingKeys = HasDistinctKeys (λ (operation : PendingOperation). operation.id)

abbrev pub not_pending_of : Text → PendingOperation → Bool
not_pending_of account operation = not (pending_of account operation)

-- the parts of the state that the replay of changes leaves alone
pub record IsAfterChanges (before after : MailState) : Type 0 where
  pub accounts : after.accounts ≡ before.accounts
  pub identities : after.identities ≡ before.identities
  pub outbox : after.outbox ≡ before.outbox

unchanged : (state : MailState) → IsAfterChanges state state
unchanged state = record { accounts = refl; identities = refl; outbox = refl }

record_pending_failure-pending :
    (state : MailState) (operation : PendingOperation) (message : Text)
    → find? (has_pending_id operation.id) state.pending_operations ≡ some operation
    → ((record_pending_failure state operation.id message).pending_operations
        ≡ update_first
            (has_pending_id operation.id)
            (failed_pending message)
            state.pending_operations)
      × IsAfterChanges state (record_pending_failure state operation.id message)
unfolding record_pending_failure
record_pending_failure-pending state operation message found =
    rw found
      (elim (Bool-cases (nat_beq (suc operation.attempts) automatic_mail_queue_attempt_limit)) [
        | inl limit ↦ rw limit (refl, record { accounts = refl; identities = refl; outbox = refl })
        | inr below ↦ rw below (refl, record { accounts = refl; identities = refl; outbox = refl })
      ])

-- A change at which the replay stops: one in conflict, or one that failed too often.
abbrev pub change_stops : MailState → PendingOperation → Bool
change_stops snapshot operation =
    is_some (pending_operation_conflict snapshot operation) || is_paused operation.attempts

abbrev pub change_error : Transport → StoredAccount → PendingOperation → Option Text
change_error t account operation = error_of t (perform_pending_operation t account operation)

-- what is left of the account's changes
abbrev pub drained_changes :
    Transport → StoredAccount → MailState → List PendingOperation → List PendingOperation
drained_changes t account snapshot =
    drain (change_stops snapshot) (change_error t account) failed_pending

module _ (t : Transport) (snapshot : MailState) (account current : StoredAccount) where
  pub record IsReplayed (before after : MailState) (left : List PendingOperation) : Type 0 where
    pub own : filter (pending_of account.id) after.pending_operations ≡ left
    pub others :
        filter (not_pending_of account.id) after.pending_operations
        ≡ filter (not_pending_of account.id) before.pending_operations
    pub rest : IsAfterChanges before after

  -- The loop after a turn, where it is known what the rest of the loop does.
  loop_after :
      (operation : PendingOperation) (operations : List PendingOperation) (state rest : MailState)
      (attempt : Attempt (Unit {0}))
      → PendingKeys state.pending_operations
      → require_account state account.id ≡ ok current
      → filter (pending_of account.id) state.pending_operations ≡ operation ∷ operations
      → (error_of t attempt ≡ none
          → PendingKeys (performed t state account operation attempt).state.pending_operations
          → require_account (performed t state account operation attempt).state account.id
            ≡ ok current
          → filter
              (pending_of account.id)
              (performed t state account operation attempt).state.pending_operations
            ≡ operations
          → IsReplayed
              (performed t state account operation attempt).state
              rest
              (drained_changes t account snapshot operations))
      → IsReplayed state
          (if (performed t state account operation attempt).goes_on
            then rest
            else (performed t state account operation attempt).state)
          (left_of
            (change_stops snapshot)
            (change_error t account)
            failed_pending
            operation
            operations
            (drained_changes t account snapshot operations)
            (error_of t attempt))
  loop_after operation operations state rest (failed error) keys known first later =
      let found =
        find?-first (λ (o : PendingOperation). o.id) (pending_of account.id) operation operations
          state.pending_operations keys first in
      let mine =
        (subst (All (λ o. pending_of account.id o ≡ true)) first
          (filter_sound (pending_of account.id) state.pending_operations)).0 in
      let (p, after) =
        record_pending_failure-pending state operation (t.mail_error_message error) found in
      let (own, others) =
        filter-update_first (λ (o : PendingOperation). o.id) (pending_of account.id) operation
          (failed_pending (t.mail_error_message error)) operations state.pending_operations keys
          first mine in
      record { own = rw p own; others = rw p others; rest = after }
  loop_after operation operations state rest (done _) keys known first later =
      let (own, others) =
        filter-without_first (λ (o : PendingOperation). o.id) (pending_of account.id) operation
          operations state.pending_operations keys first in
      rw known (
        let drained =
          (rw known at later) refl
            (AllPairs-filter (λ (x : PendingOperation) y. y.id ≢ x.id)
              (λ o. not (has_pending_id operation.id o)) state.pending_operations keys)
            known own in
        record {
          own = drained.own;
          others = drained.others ∙ others;
          rest = record {
            accounts = drained.rest.accounts;
            identities = drained.rest.identities;
            outbox = drained.rest.outbox;
          };
        })

  pub replay_operations-IsReplayed :
      (operations : List PendingOperation) (state : MailState)
      → PendingKeys state.pending_operations
      → require_account state account.id ≡ ok current
      → filter (pending_of account.id) state.pending_operations ≡ operations
      → IsReplayed state
          (replay_operations t snapshot account operations state)
          (drained_changes t account snapshot operations)
  unfolding replay_operations drain replay_turn
  replay_operations-IsReplayed [] state keys known first = record {
    own = first;
    others = refl;
    rest = unchanged state;
  }
  replay_operations-IsReplayed (operation ∷ operations) state keys known first =
      elim (Bool-cases (change_stops snapshot operation)) [
        | inl stop ↦ rw stop record { own = first; others = refl; rest = unchanged state }
        | inr go ↦ rw go (
            loop_after operation operations state
              (replay_operations t snapshot account operations
                (performed t state account operation
                  (perform_pending_operation t account operation)).state)
              (perform_pending_operation t account operation) keys known first
              (λ e keys' known' first'.
                replay_operations-IsReplayed operations
                  (performed t state account operation
                    (perform_pending_operation t account operation)).state
                  keys' known' first'))
      ]
