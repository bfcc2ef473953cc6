-- ===== src/Filters/Conditions.antt =====
-- src/shared/message-filters.ts: what a condition reads of a message, and when it holds.
use material_email.Prelude.{
  ℕ, Bool, true, false, not, ◌&&◌, Option, none, some, List, [], ◌∷◌, ◌++◌, map, all, any, filter,
  take, contains, if◌then◌else◌,
}
use material_email.Prelude.Text.{
  Text, text, text_beq, text_eq, is_empty, trim, trim_start, trim_end, starts_with, ends_with,
  includes, join,
}
use material_email.Runtime.{Unicode, RegExp, Numbers}
use material_email.Mail.{Address}
use material_email.Regex.{regex, create_matcher}
use material_email.Filters.Model.{
  FilterField, from, to, cc, recipient, subject, body, account, folder, size, attachments,
  read_state, FilterOperator, contains_text, not_contains, is, is_not, begins_with, finishes_with,
  matches_regex, greater_than, less_than, FilterCondition, MatchAll, match_all, match_any,
  MessageFilter, FilterSubject, FieldKind, text_kind, numeric_kind, boolean_kind, tag_kind,
  message_filter_field_kind, condition_limit, value_limit,
}
use material_email.Filters.Validation.{condition_flags}

abbrev entry_text : Address → Text
entry_text entry =
    if is_empty entry.name
    then entry.address
    else entry.name ++ (text " <" ++ (entry.address ++ text ">"))

unfoldable pub address_text : List Address → Text
unfolding join
address_text addresses = join (text ", ") (map entry_text addresses)

abbrev body_or_preview : Option Text → Text → Text
body_or_preview none preview = preview
body_or_preview (some b) preview = b

unfoldable pub text_for : FilterField → FilterSubject → Text
unfolding address_text
text_for from s = address_text s.message.from
text_for to s = address_text s.message.to
text_for cc s = address_text s.message.cc
text_for recipient s =
    join (text ", ")
      (filter (λ t. not (is_empty t)) (address_text s.message.to ∷ address_text s.message.cc ∷ []))
text_for subject s = s.message.subject
text_for body s = body_or_preview s.body s.message.preview
text_for account s = s.account_email
text_for folder s = s.folder_name ++ (text " " ++ s.message.folder_path)
text_for _ s = []

unfoldable pub boolean_for : FilterField → FilterSubject → Bool
boolean_for attachments s = s.message.has_attachments
boolean_for read_state s = not s.message.unread
boolean_for _ s = s.message.starred

-- the bound on the text that a condition reads
abbrev haystack_limit : ℕ
haystack_limit = 50_000

-- The comparisons but for `regex`, on texts that are folded already. Other operators never hold.
unfoldable pub compare_folded : FilterOperator → Text → Text → Bool
unfolding includes trim trim_start trim_end starts_with ends_with text_beq
compare_folded contains_text left right = includes left right
compare_folded not_contains left right = not (includes left right)
compare_folded is left right = text_beq (trim left) right
compare_folded is_not left right = not (text_beq (trim left) right)
compare_folded begins_with left right = starts_with (trim_start left) right
compare_folded finishes_with left right = ends_with (trim_end left) right
compare_folded _ left right = false

abbrev bool_beq : Bool → Bool → Bool
bool_beq true b = b
bool_beq false b = not b

abbrev is_operator : FilterOperator → Bool
is_operator is = true
is_operator _ = false

abbrev applied : Option (Text → Bool) → Text → Option Bool
applied none value = none
applied (some matches) value = some (matches value)

abbrev caught : Option Bool → Bool
caught none = false
caught (some b) = b

module _ (u : Unicode) (r : RegExp) (n : Numbers) where
  unfoldable pub number_for : FilterField → FilterSubject → n.Num → n.Num
  number_for size s now = n.of_ℕ s.message.size
  number_for _ s now =
      let parsed = n.date_parse s.message.date in
      if n.is_finite parsed
      then n.max (n.of_ℕ 0) (n.div (n.sub now parsed) (n.of_ℕ 86_400_000))
      else n.of_ℕ 0

  -- the text comparisons but for `regex`
  abbrev compare_plain : FilterCondition → Text → Text → Bool
  compare_plain condition bounded needle =
      if condition.case_sensitive
      then compare_folded condition.operator bounded needle
      else compare_folded condition.operator (u.lower bounded) (u.lower needle)

  abbrev compare_by : FilterOperator → FilterCondition → Text → Text → Option Bool
  compare_by matches_regex condition bounded needle =
      applied
        (create_matcher r (record {
          mode = regex;
          pattern = needle;
          flags = condition_flags condition.case_sensitive;
        }))
        bounded
  compare_by _ condition bounded needle = some (compare_plain condition bounded needle)

  -- `none` where the construction of a matcher throws
  unfoldable pub compare_text : FilterCondition → Text → Option Bool
  unfolding compare_folded
  compare_text condition haystack =
      compare_by condition.operator condition (take haystack_limit haystack)
        (take value_limit (trim condition.value))

  abbrev compare_numbers : FilterOperator → n.Num → n.Num → Bool
  compare_numbers greater_than actual expected = n.less expected actual
  compare_numbers less_than actual expected = n.less actual expected
  compare_numbers is actual expected = n.equal (n.trunc actual) (n.trunc expected)
  compare_numbers is_not actual expected = not (n.equal (n.trunc actual) (n.trunc expected))
  compare_numbers _ actual expected = false

  abbrev evaluate_by : FieldKind → FilterCondition → FilterSubject → n.Num → Option Bool
  evaluate_by text_kind c s now = compare_text c (text_for c.field s)
  evaluate_by numeric_kind c s now =
      let expected = n.parse (trim c.value) in
      some (n.is_finite expected && compare_numbers c.operator (number_for c.field s now) expected)
  evaluate_by boolean_kind c s now =
      let same = bool_beq (boolean_for c.field s) (text_beq (trim c.value) (text "true")) in
      some (if is_operator c.operator then same else not same)
  evaluate_by tag_kind c s now =
      let has = contains s.tag_ids (trim c.value) in
      some (if is_operator c.operator then has else not has)

  unfoldable pub evaluate_message_filter_condition :
      FilterCondition → FilterSubject → n.Num → Option Bool
  unfolding compare_text number_for boolean_for text_for message_filter_field_kind
  evaluate_message_filter_condition condition s now =
      evaluate_by (message_filter_field_kind condition.field) condition s now

  abbrev other_account : Option Text → Text → Bool
  other_account none account_id = false
  other_account (some id) account_id = not (is_empty id) && not (text_beq id account_id)

  abbrev combined : MatchAll → List Bool → Bool
  combined match_all results = all (λ b. b) results
  combined match_any results = any (λ b. b) results

  abbrev has_conditions : List FilterCondition → Bool
  has_conditions [] = false
  has_conditions (c ∷ cs) = true

  unfoldable pub message_filter_matches : MessageFilter → FilterSubject → n.Num → Bool
  unfolding evaluate_message_filter_condition
  message_filter_matches filter s now =
      let conditions = take condition_limit filter.conditions in
      not (other_account filter.account_id s.message.account_id)
      && has_conditions conditions
      && combined filter.match
          (map (λ c. caught (evaluate_message_filter_condition c s now)) conditions)
