-- ===== src/Filters/Validation.antt =====
-- src/shared/message-filters.ts: the validation of conditions, actions and filters.
use material_email.Prelude.{Bool, true, false, not, ◌&&◌, ◌||◌, List, [], ◌∷◌, take, if◌then◌else◌}
use material_email.Prelude.Text.{Text, text, text_beq, is_empty, trim}
use material_email.Runtime.{RegExp, Numbers}
use material_email.Regex.{MatcherOptions, regex, validate_pattern}
use material_email.Filters.Model.{
  FilterCondition, FilterAction, ActionKind, add_tag, remove_tag, move, FilterOperator,
  matches_regex, MessageFilter, FilterError, filter_name_required, condition_required,
  action_required, operator_unsupported, value_required, value_invalid, pattern_invalid, FieldKind,
  numeric_kind, boolean_kind, message_filter_field_kind, supports, condition_limit, action_limit,
}

pub data Result {ℓ} (A : Type ℓ) : Type ℓ where
  ok : A → Result A
  err : FilterError → Result A

infixl 5 ◌>>=◌ ◌>>◌
abbrev pub ◌>>=◌ {ℓ κ} : {A : Type ℓ} {B : Type κ} → Result A → (A → Result B) → Result B
ok value >>= next = next value
err error >>= next = err error

abbrev pub ◌>>◌ {ℓ} : {B : Type ℓ} → Result (Unit {0}) → Result B → Result B
first >> second = first >>= λ _. second

-- `if (test) throw error`
abbrev pub throw_if : Bool → FilterError → Result (Unit {0})
throw_if true e = err e
throw_if false e = ok tt

-- `for (const item of items) check(item)`
abbrev pub for_each {ℓ} : {A : Type ℓ} → (A → Result (Unit {0})) → List A → Result (Unit {0})
for_each check [] = ok tt
for_each check (x ∷ xs) = check x >> for_each check xs

-- The flags of a condition's expression: "u", or "iu" where case does not matter.
abbrev pub condition_flags : Bool → Text
condition_flags case_sensitive = if case_sensitive then text "u" else text "iu"

abbrev is_regex : FilterOperator → Bool
is_regex matches_regex = true
is_regex _ = false

abbrev is_nil {ℓ} : {A : Type ℓ} → List A → Bool
is_nil [] = true
is_nil (x ∷ xs) = false

-- The actions that need a target: those that are not in `VALUELESS_ACTIONS`.
abbrev needs_value : ActionKind → Bool
needs_value add_tag = true
needs_value remove_tag = true
needs_value move = true
needs_value _ = false

unfoldable pub validate_message_filter_action : FilterAction → Result (Unit {0})
validate_message_filter_action action =
    throw_if (needs_value action.kind && is_empty (trim action.value)) value_required

module _ (r : RegExp) (n : Numbers) where
  abbrev regex_options : FilterCondition → MatcherOptions
  regex_options condition = record {
    mode = regex;
    pattern = trim condition.value;
    flags = condition_flags condition.case_sensitive;
  }

  -- the checks of a value, by the kind of its field
  abbrev validate_value : FieldKind → FilterCondition → Text → Result (Unit {0})
  validate_value numeric_kind condition value =
      let parsed = n.parse value in
      throw_if (is_empty value || not (n.is_finite parsed) || n.less parsed (n.of_ℕ 0))
        value_invalid
  validate_value boolean_kind condition value =
      throw_if (not (text_beq value (text "true")) && not (text_beq value (text "false")))
        value_invalid
  validate_value _ condition value = do
    throw_if (is_empty value) value_required
    throw_if
        (is_regex condition.operator && not (validate_pattern r (regex_options condition)).valid)
        pattern_invalid

  unfoldable pub validate_message_filter_condition : FilterCondition → Result (Unit {0})
  unfolding message_filter_field_kind supports
  validate_message_filter_condition condition =
      let kind = message_filter_field_kind condition.field in
      do
        throw_if (not (supports kind condition.operator)) operator_unsupported
        validate_value kind condition (trim condition.value)

  unfoldable pub validate_message_filter : MessageFilter → Result (Unit {0})
  unfolding validate_message_filter_condition validate_message_filter_action
  validate_message_filter filter = do
    throw_if (is_empty (trim filter.name)) filter_name_required
    throw_if (is_nil filter.conditions) condition_required
    throw_if (is_nil filter.actions) action_required
    for_each validate_message_filter_condition (take condition_limit filter.conditions)
    for_each validate_message_filter_action (take action_limit filter.actions)
