-- ===== src/Queue/Worlds.antt =====
-- Deliveries of the outbox in flight: what every order of steps keeps (src/main/app-service.ts).
use material_email.Prelude.{
  ◌≡◌, ◌≢◌, refl, sym, subst, Bool, true, not, some, List, [], ◌∷◌, filter, find?, All, All-map,
  All-both, AllPairs-filter, AllPairs-concat,
}
use material_email.Prelude.Text.{Text, text_eq}
use material_email.Mail.{ComposeDraft}
use material_email.Sending.{SendResult, SendDisposition, was_queued, sent, partial, was_rejected}
use material_email.Queue.Model.{OutboxItem, MailState, Attempt, done, failed, Transport}
use material_email.Queue.Heads.{outbox_of, has_outbox_id, update_first, failed_outbox}
use material_email.Queue.Delivery.{delivered}
use material_email.Queue.Drafts.{SendOutcome, finish_by}
use material_email.Queue.Outbox.{OutboxKeys, delivered-IsDelivered}
use material_email.Queue.Interleaving.{Flight, IsFlying}
use material_email.Queue.Flights.{
  found_without, found_updated, found_append, keys_updated, other_item, flies_on,
}

-- the accounts and the outbox of a state that follows another
pub record IsNext (t : Transport) (before after : MailState) (flights : List Flight) : Type 0 where
  pub keys : OutboxKeys after.outbox
  pub flying : All (IsFlying t after) flights

module _ (t : Transport) where
  All-fly_on :
      (before after : MailState) (flights : List Flight)
      → after.accounts ≡ before.accounts
      → All
          (λ f. IsFlying t before f × (find? (has_outbox_id f.item.id) after.outbox ≡ some f.item))
          flights
      → All (IsFlying t after) flights
  All-fly_on before after flights same h =
      All-map {Q = IsFlying t after} (λ f fact. flies_on t before after f same fact.0 fact.1)
        flights h

  -- An item without a delivery is taken away.
  pub without-IsNext :
      (before after : MailState) (account : Text) (x : OutboxItem) (flights : List Flight)
      → OutboxKeys before.outbox
      → All (IsFlying t before) flights
      → All (λ (f : Flight). f.account.id ≢ account) flights
      → find? (has_outbox_id x.id) before.outbox ≡ some x
      → outbox_of account x ≡ true
      → after.accounts ≡ before.accounts
      → after.outbox ≡ filter (λ i. not (has_outbox_id x.id i)) before.outbox
      → IsNext t before after flights
  without-IsNext before after account x flights keys flying ne found mine same e = record {
    keys = subst OutboxKeys (sym e) (
        AllPairs-filter (λ (a : OutboxItem) b. b.id ≢ a.id) (λ i. not (has_outbox_id x.id i))
          before.outbox keys);
    flying = All-fly_on before after flights same (
        All-map
          {Q = λ f.
            IsFlying t before f × (find? (has_outbox_id f.item.id) after.outbox ≡ some f.item)}
          (λ f fact. (
            fact.0,
            rw e (
                found_without f.item.id x.id f.item before.outbox
                  (other_item t before f account x fact.0 fact.1 found mine) (fact.0).found),
          ))
          flights (All-both _ _ flights flying ne));
  }

  -- An item without a delivery takes down a failure.
  updated-IsNext :
      (before after : MailState) (account message : Text) (x : OutboxItem) (flights : List Flight)
      → OutboxKeys before.outbox
      → All (IsFlying t before) flights
      → All (λ (f : Flight). f.account.id ≢ account) flights
      → find? (has_outbox_id x.id) before.outbox ≡ some x
      → outbox_of account x ≡ true
      → after.accounts ≡ before.accounts
      → after.outbox ≡ update_first (has_outbox_id x.id) (failed_outbox message) before.outbox
      → IsNext t before after flights
  updated-IsNext before after account message x flights keys flying ne found mine same e = record {
    keys = subst OutboxKeys (sym e) (keys_updated x.id message before.outbox keys);
    flying = All-fly_on before after flights same (
        All-map
          {Q = λ f.
            IsFlying t before f × (find? (has_outbox_id f.item.id) after.outbox ≡ some f.item)}
          (λ f fact. (
            fact.0,
            rw e (
                found_updated f.item.id x.id message f.item before.outbox
                  (other_item t before f account x fact.0 fact.1 found mine) (fact.0).found),
          ))
          flights (All-both _ _ flights flying ne));
  }

  pub ends-IsNext :
      (state : MailState) (f : Flight) (others : List Flight) (attempt : Attempt SendResult)
      (fresh : Text)
      → OutboxKeys state.outbox
      → IsFlying t state f
      → All (IsFlying t state) others
      → All (λ (g : Flight). g.account.id ≢ f.account.id) others
      → IsNext t state (delivered t state f.account f.item fresh attempt).state others
  ends-IsNext state f others (failed error) fresh keys flying all apart =
      let d =
        delivered-IsDelivered t f.account f.account state f.item fresh (failed error) flying in
      updated-IsNext state (delivered t state f.account f.item fresh (failed error)).state
        f.account.id (t.mail_error_message error) f.item others keys all apart flying.found
        flying.mine (d.rest).accounts d.outbox
  ends-IsNext state f others (done answer) fresh keys flying all apart =
      let d = delivered-IsDelivered t f.account f.account state f.item fresh (done answer) flying in
      without-IsNext state (delivered t state f.account f.item fresh (done answer)).state
        f.account.id f.item others keys all apart flying.found flying.mine (d.rest).accounts
        d.outbox

  pub same-IsNext :
      (before after : MailState) (flights : List Flight)
      → OutboxKeys before.outbox
      → All (IsFlying t before) flights
      → after.accounts ≡ before.accounts
      → after.outbox ≡ before.outbox
      → IsNext t before after flights
  same-IsNext before after flights keys flying same e = record {
    keys = subst OutboxKeys (sym e) keys;
    flying = All-fly_on before after flights same (
        All-map
          {Q = λ f.
            IsFlying t before f × (find? (has_outbox_id f.item.id) after.outbox ≡ some f.item)}
          (λ f fact. (fact, rw e (fact.found))) flights flying);
  }

  pub finish_by-IsNext :
      (d : SendDisposition) (state : MailState) (draft : ComposeDraft) (unchanged : Bool)
      (outcome : SendOutcome) (fresh now : Text) (flights : List Flight)
      → OutboxKeys state.outbox
      → All (IsFlying t state) flights
      → All (λ (i : OutboxItem). outcome.answer.message_id ≢ i.id) state.outbox
      → IsNext t state (finish_by d state draft unchanged outcome fresh now) flights
  finish_by-IsNext was_rejected state draft unchanged outcome fresh now flights keys flying unused =
      same-IsNext state (finish_by was_rejected state draft unchanged outcome fresh now) flights
        keys flying refl refl
  finish_by-IsNext sent state draft unchanged outcome fresh now flights keys flying unused =
      same-IsNext state (finish_by sent state draft unchanged outcome fresh now) flights keys flying
        refl refl
  finish_by-IsNext partial state draft unchanged outcome fresh now flights keys flying unused =
      same-IsNext state (finish_by partial state draft unchanged outcome fresh now) flights keys
        flying refl refl
  finish_by-IsNext was_queued state draft unchanged outcome fresh now flights keys flying unused =
      record {
        keys = AllPairs-concat (λ (a : OutboxItem) b. b.id ≢ a.id) state.outbox added keys unused;
        flying = All-fly_on state next flights refl (
            All-map
              {Q = λ f.
                IsFlying t state f × (find? (has_outbox_id f.item.id) next.outbox ≡ some f.item)}
              (λ f fact. (fact, found_append f.item.id f.item state.outbox (added ∷ []) fact.found))
              flights flying);
      }
    where
      added : OutboxItem
      added = record {
        id = outcome.answer.message_id;
        draft = draft;
        created_at = now;
        attempts = 0;
        last_error = outcome.network_error;
      }

      next : MailState
      next = finish_by was_queued state draft unchanged outcome fresh now
