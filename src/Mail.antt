-- ===== src/Mail.antt =====
-- The mail data that the components exchange (src/shared/contracts.ts), and JavaScript objects that
-- map texts to values, as association lists in insertion order. No key of such an object in the
-- program is an array index, so `Object.entries` lists the keys in that order.
pub mod Objects
unfoldable pub use Objects.*
use material_email.Prelude.{ℕ, Bool, Option, List}
use material_email.Prelude.Text.{Text}

pub record Address : Type 0 where
  pub name : Text
  pub address : Text

pub record MessageSummary : Type 0 where
  pub id : Text
  pub account_id : Text
  pub folder_path : Text
  pub uid : ℕ
  pub uid_validity : Option Text
  pub message_id : Option Text
  pub in_reply_to : Option Text
  pub references : List Text
  pub from : List Address
  pub to : List Address
  pub cc : List Address
  pub subject : Text
  pub date : Text
  pub preview : Text
  pub unread : Bool
  pub starred : Bool
  pub has_attachments : Bool
  pub size : ℕ

pub data FolderRole : Type 0 where
  inbox sent drafts archive junk trash other : FolderRole

pub record FolderSummary : Type 0 where
  pub account_id : Text
  pub path : Text
  pub name : Text
  pub role : FolderRole
  pub unread : ℕ
  pub total : ℕ
  pub uid_validity : Option Text

pub record ComposeDraft : Type 0 where
  pub id : Option Text
  pub account_id : Text
  pub identity_id : Option Text
  pub to : List Text
  pub cc : List Text
  pub bcc : List Text
  pub subject : Text
  pub text : Text
  pub in_reply_to : Option Text
  pub references : Option (List Text)
  pub attachments : List Text
