-- ===== src/Filters/Model.antt =====
-- src/shared/message-filters.ts: filters, what they read, and the errors of their validation.
use material_email.Prelude.{ℕ, Bool, true, false, Option, List, ◌≡◌, arith, nat_beq}
use material_email.Prelude.Text.{Text}
use material_email.Mail.{MessageSummary}

abbrev pub filter_limit : ℕ
filter_limit = 200

abbrev pub condition_limit : ℕ
condition_limit = 20

abbrev pub action_limit : ℕ
action_limit = 20

abbrev pub filter_name_limit : ℕ
filter_name_limit = 120

abbrev pub value_limit : ℕ
value_limit = 2_048

abbrev pub run_limit : ℕ
run_limit = 5_000

pub data FilterField : Type 0 where
  from to cc recipient subject body account folder tag size age_days attachments read_state
        star_state :
      FilterField

pub data FilterOperator : Type 0 where
  contains_text not_contains is is_not begins_with finishes_with matches_regex greater_than
        less_than :
      FilterOperator

pub data ActionKind : Type 0 where
  mark_read mark_unread star unstar add_tag remove_tag move archive trash mark_junk mark_not_junk
        stop :
      ActionKind

pub record FilterCondition : Type 0 where
  pub field : FilterField
  pub operator : FilterOperator
  pub value : Text
  pub case_sensitive : Bool

pub record FilterAction : Type 0 where
  pub kind : ActionKind
  pub value : Text

pub data MatchAll : Type 0 where
  match_all match_any : MatchAll

pub record MessageFilter : Type 0 where
  pub id : Text
  pub name : Text
  pub enabled : Bool
  pub ordinal : ℕ
  pub match : MatchAll
  pub run_on_sync : Bool
  pub account_id : Option Text
  pub conditions : List FilterCondition
  pub actions : List FilterAction

pub record FilterSubject : Type 0 where
  pub message : MessageSummary
  pub account_email : Text
  pub folder_name : Text
  pub tag_ids : List Text
  pub body : Option Text

pub record FilterOutcome : Type 0 where
  pub filter_id : Text
  pub filter_name : Text
  pub actions : List FilterAction
  pub stopped : Bool

pub record FilterEvaluation : Type 0 where
  pub matched : Bool
  pub outcomes : List FilterOutcome
  pub effective : List FilterAction

-- The codes of `MessageFilterError`.
pub data FilterError : Type 0 where
  filter_name_required condition_required action_required operator_unsupported value_required
        value_invalid pattern_invalid filter_limit_reached filter_not_found :
      FilterError

pub data FieldKind : Type 0 where
  text_kind numeric_kind boolean_kind tag_kind : FieldKind

unfoldable pub message_filter_field_kind : FilterField → FieldKind
message_filter_field_kind size = numeric_kind
message_filter_field_kind age_days = numeric_kind
message_filter_field_kind attachments = boolean_kind
message_filter_field_kind read_state = boolean_kind
message_filter_field_kind star_state = boolean_kind
message_filter_field_kind tag = tag_kind
message_filter_field_kind _ = text_kind

-- `operatorsFor(kind).has(operator)`
unfoldable pub supports : FieldKind → FilterOperator → Bool
supports text_kind greater_than = false
supports text_kind less_than = false
supports text_kind _ = true
supports numeric_kind greater_than = true
supports numeric_kind less_than = true
supports _ is = true
supports _ is_not = true
supports _ _ = false

-- the place of a kind of action in the list of kinds
abbrev kind_code : ActionKind → ℕ
kind_code mark_read = 0
kind_code mark_unread = 1
kind_code star = 2
kind_code unstar = 3
kind_code add_tag = 4
kind_code remove_tag = 5
kind_code move = 6
kind_code archive = 7
kind_code trash = 8
kind_code mark_junk = 9
kind_code mark_not_junk = 10
kind_code stop = 11

unfoldable pub kind_beq : ActionKind → ActionKind → Bool
kind_beq a b = nat_beq (kind_code a) (kind_code b)

pub kind_beq_refl : (a : ActionKind) → kind_beq a a ≡ true
unfolding kind_beq
kind_beq_refl a = ground arith

-- Kinds that compare alike are equal.
pub kind_beq_sound : (a b : ActionKind) → kind_beq a b ≡ true → a ≡ b
unfolding kind_beq
kind_beq_sound mark_read b h = ground arith
kind_beq_sound _ b h = ground arith
