-- ===== src/Queue/OutboxReplay.antt =====
-- The second loop of `#replayPending` (src/main/app-service.ts) against the abstract queue.
use material_email.Prelude.{
  ◌≡◌, ◌≢◌, refl, sym, subst, ◌∙◌, true, not, Option, none, some, List, [], ◌∷◌, filter,
  AllPairs-filter, Bool-cases, inl, inr, if◌then◌else◌, All, filter_sound,
}
use material_email.Prelude.Text.{Text}
use material_email.Runtime.{Unicode}
use material_email.Identities.Normal.{MailIdentity}
use material_email.Queue.Model.{StoredAccount, OutboxItem, MailState, Transport, ok, Ran}
use material_email.Sending.{SendResult}
use material_email.Identities.Stored.{identity_for_draft}
use material_email.Queue.Heads.{
  require_account, outbox_of, has_outbox_id, failed_outbox, update_first,
}
use material_email.Queue.Delivery.{deliver_outbox_item}
use material_email.Queue.Replay.{
  outbox_turn, replay_outbox, next_identifier, later_identifiers, succeeded,
}
use material_email.Queue.Lists.{filter-without_first, filter-update_first}
use material_email.Queue.Draining.{drain, left_of}
use material_email.Queue.Outbox.{
  OutboxKeys, not_of, IsAfter, IsTurn, IsDelivered, delivered-IsDelivered, in_flight, send_error,
  outbox_stops, drained_outbox,
}

IsAfter-trans : {a b c : MailState} → IsAfter a b → IsAfter b c → IsAfter a c
IsAfter-trans h k = record {
  accounts = k.accounts ∙ h.accounts;
  identities = k.identities ∙ h.identities;
  pending_operations = k.pending_operations ∙ h.pending_operations;
}

module _ (u : Unicode) (t : Transport) (account current : StoredAccount) where
  -- What is left of the account's outbox, and the others' items as they were.
  pub record IsDrained (before after : MailState) (left : List OutboxItem) : Type 0 where
    pub own : filter (outbox_of account.id) after.outbox ≡ left
    pub others : filter (not_of account.id) after.outbox ≡ filter (not_of account.id) before.outbox
    pub rest : IsAfter before after

  turn_left :
      (item : OutboxItem) (items : List OutboxItem) (state : MailState)
      → (next : MailState) (error : Option Text) → IsTurn t account current state item items
      → next.outbox ≡ (elim error [
        | none ↦ filter (λ other. not (has_outbox_id item.id other)) state.outbox
        | some message ↦ update_first (has_outbox_id item.id) (failed_outbox message) state.outbox
      ])
      → (filter (outbox_of account.id) next.outbox
          ≡ (elim error [ none ↦ items | some message ↦ failed_outbox message item ∷ items ]))
        × (filter (not_of account.id) next.outbox ≡ filter (not_of account.id) state.outbox)
  turn_left item items state next none turn e = rw e (
      filter-without_first (λ (i : OutboxItem). i.id) (outbox_of account.id) item items state.outbox
        turn.keys turn.first)
  turn_left item items state next (some message) turn e = rw e (
      filter-update_first (λ (i : OutboxItem). i.id) (outbox_of account.id) item
        (failed_outbox message) items state.outbox turn.keys turn.first
        (subst (All (λ i. outbox_of account.id i ≡ true)) turn.first
          (filter_sound (outbox_of account.id) state.outbox)).0)

  -- The loop after a delivery, where it is known what the rest of the loop does.
  loop_after :
      (identities : Option (List MailIdentity)) (item : OutboxItem) (items : List OutboxItem)
      (state : MailState) (error : Option Text) (ran : Ran SendResult) (rest : MailState)
      → IsTurn t account current state item items
      → IsDelivered t account current state item error ran
      → (error ≡ none
          → filter (outbox_of account.id) ran.state.outbox ≡ items
          → IsDrained ran.state rest (drained_outbox u t account identities items))
      → IsDrained state (if succeeded ran.result then rest else ran.state) (
          left_of outbox_stops
            (send_error u t account identities)
            failed_outbox
            item
            items
            (drained_outbox u t account identities items)
            error)
  loop_after identities item items state none ran rest turn delivery later =
      let (own, others) = turn_left item items state ran.state none turn delivery.outbox in
      let drained = later refl own in
      rw (delivery.goes_on) record {
        own = drained.own;
        others = drained.others ∙ others;
        rest = IsAfter-trans delivery.rest drained.rest;
      }
  loop_after identities item items state (some message) ran rest turn delivery later =
      let (own, others) =
        turn_left item items state ran.state (some message) turn delivery.outbox in
      rw (delivery.goes_on) record { own = own; others = others; rest = delivery.rest }

  pub replay_outbox-IsDrained :
      (identities : Option (List MailIdentity)) (items : List OutboxItem) (fresh : List Text)
      (state : MailState)
      → OutboxKeys state.outbox
      → require_account state account.id ≡ ok current
      → state.identities ≡ identities
      → filter (outbox_of account.id) state.outbox ≡ items
      → IsDrained state
          (replay_outbox u t account items fresh state)
          (drained_outbox u t account identities items)
  unfolding replay_outbox drain outbox_turn deliver_outbox_item
  replay_outbox-IsDrained identities [] fresh state keys known ids first = record {
    own = first;
    others = refl;
    rest = record { accounts = refl; identities = refl; pending_operations = refl };
  }
  replay_outbox-IsDrained identities (item ∷ items) fresh state keys known ids first =
      elim (Bool-cases (outbox_stops item)) [
        | inl stop ↦ rw stop record {
          own = first;
          others = refl;
          rest = record { accounts = refl; identities = refl; pending_operations = refl };
        }
        | inr go ↦ rw go (
            loop_after identities item items state (send_error u t account identities item) ran
              (replay_outbox u t account items (later_identifiers fresh) ran.state) turn delivery
              (λ e own.
                replay_outbox-IsDrained identities items (later_identifiers fresh) ran.state
                  (kept_keys e) (rw (delivery.rest.accounts) known) (delivery.rest.identities ∙ ids)
                  own))
      ]
    where
      turn : IsTurn t account current state item items
      turn = record { keys = keys; known = known; first = first }

      ran : Ran SendResult
      ran = deliver_outbox_item u t state account item (next_identifier fresh)

      delivery :
          IsDelivered t account current state item (send_error u t account identities item) ran
      delivery =
          subst
            (λ ids. IsDelivered t account current state item (send_error u t account ids item) ran)
            ids
            (delivered-IsDelivered t account current state item (next_identifier fresh)
              (t.send_message account item.draft (identity_for_draft u state.identities item.draft))
              (in_flight t account current state item items turn))

      kept_keys : send_error u t account identities item ≡ none → OutboxKeys ran.state.outbox
      kept_keys e = subst OutboxKeys (sym (rw e at delivery.outbox)) (
          AllPairs-filter (λ (x : OutboxItem) y. y.id ≢ x.id)
            (λ other. not (has_outbox_id item.id other)) state.outbox keys)
