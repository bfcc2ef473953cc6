-- ===== src/Queue/Interleaving.antt =====
-- Deliveries of the outbox that wait for the server while other operations write the state
-- (retryOutbox, `#withQueueFlight`, sendMessage, cancelOutbox and the drafts of
-- src/main/app-service.ts), as steps on the state and the deliveries that are running.
use material_email.Prelude.{◌≡◌, ◌≢◌, Option, List, ◌∷◌, map, All, AllPairs}
use material_email.Prelude.Text.{Text, text_eq}
use material_email.Mail.{ComposeDraft}
use material_email.Sending.{SendResult}
use material_email.Queue.Model.{StoredAccount, OutboxItem, MailState, Attempt, Transport, ok}
use material_email.Queue.Delivery.{delivered}
use material_email.Queue.Commands.{begin_retry, cancel_outbox}
use material_email.Queue.Drafts.{SendOutcome, finish_sending}
use material_email.Queue.Outbox.{OutboxKeys, IsInFlight}

-- A delivery that waits for the server: the account as it was read, and the item.
pub record Flight : Type 0 where
  pub account : StoredAccount
  pub item : OutboxItem

-- the accounts of which `#queueFlights` holds the identifiers
abbrev pub flight_accounts : List Flight → List Text
flight_accounts flights = map (λ (f : Flight). f.account.id) flights

pub record World : Type 0 where
  pub state : MailState
  pub running : List Flight

-- What is written beside the deliveries: a message that was sent, with a new identifier where it is
-- queued, or the cancellation of an item.
pub data Write (w : World) (next : MailState) : Type 0 where
  wrote_sending :
      (draft : ComposeDraft) (snapshot : Option ComposeDraft) (outcome : SendOutcome)
      (fresh now : Text)
      → All (λ (i : OutboxItem). outcome.answer.message_id ≢ i.id) w.state.outbox
      → next ≡ finish_sending w.state draft snapshot outcome fresh now
      → Write w next
  wrote_cancel :
      (account id : Text)
      → next ≡ (cancel_outbox (flight_accounts w.running) w.state account id).state
      → Write w next

pub data Step (t : Transport) (w v : World) : Type 0 where
  -- `retryOutbox` of any account and item, run up to its call of the server, where it gets there
  begins :
      (account_id outbox_id : Text) (flight : Flight)
      → (begin_retry t (flight_accounts w.running) w.state account_id outbox_id).result
        ≡ ok (flight.account, flight.item)
      → v ≡ record {
        state = (begin_retry t (flight_accounts w.running) w.state account_id outbox_id).state;
        running = flight ∷ w.running;
      }
      → Step t w v
  -- the server answers the delivery that began last, or that one fails
  ends :
      (flight : Flight) (others : List Flight) (attempt : Attempt SendResult) (fresh : Text)
      → w.running ≡ flight ∷ others
      → v ≡ record {
        state = (delivered t w.state flight.account flight.item fresh attempt).state;
        running = others;
      }
      → Step t w v
  -- two deliveries that run are listed the other way round
  turns :
      (first second : Flight) (others : List Flight)
      → w.running ≡ first ∷ second ∷ others
      → v ≡ record { state = w.state; running = second ∷ first ∷ others }
      → Step t w v
  writes :
      (next : MailState)
      → Write w next
      → v ≡ record { state = next; running = w.running }
      → Step t w v

pub data Reaches (t : Transport) (w : World) : World → Type 0 where
  here : Reaches t w w
  then_step : {v x : World} → Reaches t w v → Step t v x → Reaches t w x

-- The item of a delivery is in the outbox of its account, which is stored.
abbrev pub IsFlying : Transport → MailState → Flight → Type 0
IsFlying t state f = IsInFlight t f.account f.account state f.item

-- The items have identifiers of their own, every delivery has its item in the outbox, and no two
-- deliveries are of one account.
pub record IsWorld (t : Transport) (w : World) : Type 0 where
  pub keys : OutboxKeys w.state.outbox
  pub flying : All (IsFlying t w.state) w.running
  pub apart : AllPairs (λ (f : Flight) g. g.account.id ≢ f.account.id) w.running
