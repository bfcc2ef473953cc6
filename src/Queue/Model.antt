-- ===== src/Queue/Model.antt =====
-- The part of the stored state that the queues of src/main/app-service.ts read and write
-- (src/main/persisted-state.ts, src/shared/contracts.ts), and the mail transport, a parameter. The
-- identifier and the time of a notification, and the identifier, the time and the snapshot of a
-- record of the history, are left out.
use material_email.Prelude.{ℕ, Bool, Option, List, ◌∷◌, take}
use material_email.Prelude.Text.{Text}
use material_email.Mail.{ComposeDraft, FolderSummary, Object}
use material_email.Identities.Normal.{MailIdentity}
use material_email.Sending.{SendResult}

-- `AUTOMATIC_MAIL_QUEUE_ATTEMPT_LIMIT`
abbrev pub automatic_mail_queue_attempt_limit : ℕ
automatic_mail_queue_attempt_limit = 3

pub data AccountKind : Type 0 where
  imap demo : AccountKind

pub record StoredAccount : Type 0 where
  pub id : Text
  pub email : Text
  pub kind : AccountKind

pub data PendingKind : Type 0 where
  flags move : PendingKind

pub record FlagPatch : Type 0 where
  pub unread : Option Bool
  pub starred : Option Bool

pub record PendingOperation : Type 0 where
  pub id : Text
  pub account_id : Text
  pub kind : PendingKind
  pub folder_path : Text
  pub uid : ℕ
  pub uid_validity : Option Text
  pub patch : Option FlagPatch
  pub destination : Option Text
  pub created_at : Text
  pub attempts : ℕ
  pub last_error : Text

pub record OutboxItem : Type 0 where
  pub id : Text
  pub draft : ComposeDraft
  pub created_at : Text
  pub attempts : ℕ
  pub last_error : Text

pub data NotificationKind : Type 0 where
  info success warning failure : NotificationKind

pub data NotificationCategory : Type 0 where
  account mail delivery security history system : NotificationCategory

pub data Page : Type 0 where
  mail_page drafts_page : Page

-- the actions that the notifications of the queues offer
pub data NotificationAction : Type 0 where
  open_page : Page → NotificationAction
  open_draft : Text → Text → NotificationAction
  retry_pending : Text → Text → NotificationAction
  retry_outbox_item : Text → Text → NotificationAction

pub record NotificationRecord : Type 0 where
  pub kind : NotificationKind
  pub category : NotificationCategory
  pub title : Text
  pub body : Text
  pub action : Option NotificationAction

pub data HistoryKind : Type 0 where
  created updated deleted : HistoryKind

pub data EntityType : Type 0 where
  message_entity draft_entity : EntityType

pub record HistoryRecord : Type 0 where
  pub kind : HistoryKind
  pub entity_type : EntityType
  pub entity_id : Text
  pub label : Text

pub record MailState : Type 0 where
  pub accounts : List StoredAccount
  pub identities : Option (List MailIdentity)
  pub folders : Object (List FolderSummary)
  pub drafts : List ComposeDraft
  pub pending_operations : List PendingOperation
  pub outbox : List OutboxItem
  pub notifications : List NotificationRecord
  pub history : List HistoryRecord

-- What a call of the transport, or of another part outside the model, comes to: a value, or an
-- error as a text.
pub data Attempt {ℓ} (A : Type ℓ) : Type ℓ where
  done : A → Attempt A
  failed : Text → Attempt A

-- The mail service of an account, the decryption of its secret, the authorization of the local
-- files that a draft attaches, and `mailErrorMessage`, the words that the reader sees of an error.
pub record Transport : Type 0 where
  pub unlock : StoredAccount → Attempt (Unit {0})
  pub set_flags : StoredAccount → Text → ℕ → FlagPatch → Text → Attempt (Unit {0})
  pub move_message : StoredAccount → Text → ℕ → Text → Text → Attempt (Unit {0})
  pub send_message : StoredAccount → ComposeDraft → Option MailIdentity → Attempt SendResult
  pub authorize_draft : ComposeDraft → Option ComposeDraft → Attempt ComposeDraft
  pub mail_error_message : Text → Text

pub data QueueError : Type 0 where
  account_missing item_missing not_queue_head conflicting changed_in_flight no_recipients
        draft_missing flight_running incomplete :
      QueueError
  rejected_by : Text → QueueError

pub data Result {ℓ} (A : Type ℓ) : Type ℓ where
  ok : A → Result A
  err : QueueError → Result A

-- What an operation that may throw leaves behind: the state, and what it returns or throws.
pub record Ran {ℓ} (A : Type ℓ) : Type ℓ where
  pub state : MailState
  pub result : Result A

abbrev pub notify :
    NotificationKind
    → NotificationCategory
    → Option NotificationAction
    → Text
    → Text
    → MailState
    → MailState
notify kind category action title body state = record state {
  notifications = take 500 (
      record { kind = kind; category = category; title = title; body = body; action = action }
      ∷ state.notifications);
}

-- `#record`
abbrev pub record_history : HistoryKind → EntityType → Text → Text → MailState → MailState
record_history kind entity_type entity_id label state = record state {
  history = take 2_000 (
      record { kind = kind; entity_type = entity_type; entity_id = entity_id; label = label }
      ∷ state.history);
}
