-- ===== src/Tests/Queue.antt =====
-- The theorems about the queues at small values.
use material_email.Prelude.{
  String, ℕ, ◌≡◌, ◌≢◌, refl, true, false, not, Option, none, some, [], ◌∷◌, arith, All, AllPairs,
  filter, inl, inr, map, drop, subst,
}
use mathlib.Core.List.{Mem}
use material_email.Prelude.Text.{Text, text, text_beq, text_eq}
use material_email.Mail.{ComposeDraft, lookup}
use material_email.Sending.{SendResult, SendDisposition, sent, classify_send_result, was_rejected}
use material_email.Queue.Model.{
  StoredAccount, imap, flags, PendingOperation, OutboxItem, MailState, done, failed, Transport, ok,
}
use material_email.Queue.Heads.{
  pending_operation_conflict, perform_pending_operation, queue_head, has_outbox_id,
}
use material_email.Queue.Delivery.{keep_rejected, delivered}
use material_email.Queue.Replay.{replay_pending, succeeded}
use material_email.Queue.Commands.{
  begin_retry, retry_outbox, retry_pending_operation, cancel_outbox,
}
use material_email.Queue.Drafts.{send_message}
use material_email.Queue.Replayed.{
  IsQueueState, IsReplayOf, own_changes, own_items, replay_pending-IsReplayOf,
}
use material_email.Queue.Progress.{
  AreWithinLimit, replay_pending-AreWithinLimit, replay_pending_empties, replay_pending_in_order,
}
use material_email.Queue.Losses.{send_message_forgets_unsaved}
use material_email.Queue.Refusals.{
  IsRefused, retry_outbox-IsRefused, retry_pending_operation-IsRefused,
}
use material_email.Queue.Rejected.{AreKept, keep_rejected-AreKept}
use material_email.Queue.Outbox.{OutboxKeys}
use material_email.Queue.Interleaving.{
  Flight, World, Step, begins, writes, wrote_cancel, here, then_step,
}
use material_email.Queue.InFlight.{Reaches-deliveries_succeed}
use material_email.Queue.Cancelled.{cancel_outbox_returns}
use material_email.Tests.Data.{ascii, unequal}

abbrev draft_with : Option Text → String → ComposeDraft
draft_with id subject = record {
  id = id;
  account_id = text "a";
  identity_id = none;
  to = text "bob@example.org" ∷ [];
  cc = [];
  bcc = [];
  subject = text subject;
  text = text "Hi";
  in_reply_to = none;
  references = none;
  attachments = [];
}

abbrev item_at : String → ℕ → OutboxItem
item_at id attempts = record {
  id = text id;
  draft = draft_with none "Queued";
  created_at = text "10";
  attempts = attempts;
  last_error = [];
}

abbrev change : PendingOperation
change = record {
  id = text "p";
  account_id = text "a";
  kind = flags;
  folder_path = text "INBOX";
  uid = 7;
  uid_validity = some (text "1");
  patch = some record { unread = some false; starred = none };
  destination = none;
  created_at = text "9";
  attempts = 0;
  last_error = [];
}

abbrev account : StoredAccount
account = record { id = text "a"; email = text "ann@example.org"; kind = imap }

abbrev two_queued : MailState
two_queued = record {
  accounts = account ∷ [];
  identities = none;
  folders = [];
  drafts = draft_with (some (text "d")) "Stored" ∷ [];
  pending_operations = change ∷ [];
  outbox = item_at "m" 0 ∷ item_at "n" 2 ∷ [];
  notifications = [];
  history = [];
}

abbrev accepting : SendResult
accepting = record {
  message_id = text "x";
  queued = false;
  accepted = text "bob@example.org" ∷ [];
  rejected = [];
}

abbrev rejecting : SendResult
rejecting = record {
  message_id = text "x";
  queued = false;
  accepted = [];
  rejected = text "bob@example.org" ∷ [];
}

-- a server that takes everything
abbrev online : Transport
online = record {
  unlock = λ account. done tt;
  set_flags = λ account folder uid patch validity. done tt;
  move_message = λ account folder uid destination validity. done tt;
  send_message = λ account draft identity. done accepting;
  authorize_draft = λ draft stored. done draft;
  mail_error_message = λ error. error;
}

-- a server that takes changes and refuses messages
abbrev half_online : Transport
half_online = record online { send_message = λ account draft identity. failed (text "refused") }

two_queued-IsQueueState : IsQueueState account account two_queued
unfolding text_beq
two_queued-IsQueueState = record {
  pending_keys = (tt, tt);
  outbox_keys = ((unequal (text "n") (text "m") refl, tt), (tt, tt));
  known = refl;
}

one_left :
    own_items (text "a") (replay_pending ascii half_online account [] two_queued)
    ≡ record (item_at "m" 1) { last_error = text "refused" } ∷ item_at "n" 2 ∷ []
unfolding replay_pending material_email.Mail.lookup
one_left = refl

replay_pending-IsReplayOf_example :
    IsReplayOf ascii half_online account two_queued
      (replay_pending ascii half_online account [] two_queued)
replay_pending-IsReplayOf_example =
    replay_pending-IsReplayOf ascii half_online account account [] two_queued
      two_queued-IsQueueState

replay_pending-AreWithinLimit_example :
    AreWithinLimit (text "a") (replay_pending ascii half_online account [] two_queued)
unfolding text_beq
replay_pending-AreWithinLimit_example =
    replay_pending-AreWithinLimit ascii half_online account account [] two_queued
      two_queued-IsQueueState ((omega arith, tt), (omega arith, (omega arith, tt)))

replay_pending_empties_example :
    (own_changes (text "a") (replay_pending ascii online account [] two_queued) ≡ [])
    × (own_items (text "a") (replay_pending ascii online account [] two_queued) ≡ [])
unfolding text_beq pending_operation_conflict lookup perform_pending_operation
replay_pending_empties_example =
    replay_pending_empties ascii online account account [] two_queued two_queued-IsQueueState
      ((refl, refl), tt) ((refl, refl), ((refl, refl), tt))

replay_pending_in_order_example :
    ((m : ℕ) × (map
          (λ (o : PendingOperation). o.id)
          (own_changes (text "a") (replay_pending ascii half_online account [] two_queued))
        ≡ drop m (map (λ (o : PendingOperation). o.id) (own_changes (text "a") two_queued))))
    × ((n : ℕ) × (map
            (λ (i : OutboxItem). i.id)
            (own_items (text "a") (replay_pending ascii half_online account [] two_queued))
          ≡ drop n (map (λ (i : OutboxItem). i.id) (own_items (text "a") two_queued))))
replay_pending_in_order_example =
    replay_pending_in_order ascii half_online account account [] two_queued two_queued-IsQueueState

-- The cancelled message is stored without an identifier.
abbrev cancelled : MailState
cancelled = record two_queued { drafts = draft_with none "Cancelled" ∷ [] }

accepted : classify_send_result accepting ≢ was_rejected
unfolding classify_send_result
accepted e = differ e
  where
    differ : ◌≡◌ {A = SendDisposition} sent was_rejected → ⊥
    differ e = subst (λ d. elim d [ sent ↦ Unit {0} | other ↦ ⊥ ]) e tt

send_message_forgets_unsaved_example :
    All
      (λ (d : ComposeDraft). d.id ≢ none)
      (send_message ascii online cancelled
        (draft_with none "Next")
        (text "f")
        (text "11")).state.drafts
unfolding text_beq
send_message_forgets_unsaved_example =
    send_message_forgets_unsaved ascii online cancelled (draft_with none "Next")
      (draft_with none "Next") account (text "f") (text "11") refl refl refl refl refl accepted

cancelled_is_gone :
    (send_message ascii online cancelled
      (draft_with none "Next")
      (text "f")
      (text "11")).state.drafts
    ≡ []
unfolding send_message
cancelled_is_gone = refl

retry_outbox-IsRefused_example :
    IsRefused two_queued (retry_outbox ascii online [] two_queued (text "a") (text "m") (text "f"))
unfolding queue_head text_beq
retry_outbox-IsRefused_example =
    retry_outbox-IsRefused ascii online [] two_queued (text "a") (text "m") (text "f") (inr refl)

retry_pending_operation-IsRefused_example :
    IsRefused two_queued
      (retry_pending_operation online (text "a" ∷ []) two_queued (text "a") (text "p"))
unfolding text_beq
retry_pending_operation-IsRefused_example =
    retry_pending_operation-IsRefused online (text "a" ∷ []) two_queued (text "a") (text "p")
      (inl refl)

abbrev stored_again : OutboxItem
stored_again = record (item_at "m" 0) { draft = draft_with (some (text "d")) "Queued" }

keep_rejected-AreKept_example :
    AreKept two_queued.drafts (keep_rejected two_queued stored_again rejecting (text "f")).drafts
unfolding text_beq
keep_rejected-AreKept_example =
    keep_rejected-AreKept two_queued stored_again rejecting (text "f") refl

cancel_outbox_returns_example :
    ((cancel_outbox [] two_queued (text "a") (text "m")).result ≡ ok (item_at "m" 0).draft)
    × ((cancel_outbox [] two_queued (text "a") (text "m")).state.outbox
        ≡ filter (λ other. not (has_outbox_id (text "m") other)) two_queued.outbox)
    × Mem (item_at "m" 0).draft (cancel_outbox [] two_queued (text "a") (text "m")).state.drafts
unfolding text_beq
cancel_outbox_returns_example =
    cancel_outbox_returns [] two_queued (text "a") (text "m") account (item_at "m" 0) refl refl refl

-- no change is left before the outbox
abbrev only_messages : MailState
only_messages = record two_queued { pending_operations = [] }

abbrev in_the_air : World
in_the_air = record {
  state = only_messages;
  running = record { account = account; item = item_at "m" 0 } ∷ [];
}

abbrev after_cancel : World
after_cancel = record {
  state = (cancel_outbox (text "a" ∷ []) only_messages (text "a") (text "n")).state;
  running = in_the_air.running;
}

delivery_began : Step online (record { state = only_messages; running = [] }) in_the_air
unfolding text_beq queue_head begin_retry
delivery_began =
    begins (text "a") (text "m") (record { account = account; item = item_at "m" 0 }) refl refl

cancel_refused : Step online in_the_air after_cancel
cancel_refused =
    writes (cancel_outbox (text "a" ∷ []) only_messages (text "a") (text "n")).state
      (wrote_cancel (text "a") (text "n") refl) refl

only_messages-keys : OutboxKeys only_messages.outbox
only_messages-keys = two_queued-IsQueueState.outbox_keys

Reaches-deliveries_succeed_example :
    AllPairs (λ (f : Flight) g. g.account.id ≢ f.account.id) after_cancel.running
    × All
        (λ (f : Flight).
          succeeded
            (delivered online after_cancel.state f.account f.item
              (text "f")
              (done accepting)).result
          ≡ true)
        after_cancel.running
Reaches-deliveries_succeed_example =
    Reaches-deliveries_succeed online only_messages after_cancel accepting (text "f")
      only_messages-keys (then_step (then_step here delivery_began) cancel_refused)
