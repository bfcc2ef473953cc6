-- ===== src/Regex.antt =====
-- src/shared/regex.ts: bounded search patterns, their validation and the matchers made of them.
pub mod Atoms
pub mod Risk
pub mod Laws
pub mod Advances
pub mod Scanners
use material_email.Prelude.{
  ℕ, ◌≡◌, refl, Bool, true, false, ◌||◌, Option, none, some, List, [], ◌∷◌, ◌++◌, ltb,
  if◌then◌else◌, length, take, filter, contains, unique, sort, compare, nat_eq,
}
use material_email.Prelude.Text.{Text, text, is_empty}
use material_email.Runtime.{RegExp}
use Risk.{has_adjacent_overlapping_quantifiers, repeated_group_has_overlapping_alternatives}

pub data MatchMode : Type 0 where
  plain regex : MatchMode

pub record MatcherOptions : Type 0 where
  pub mode : MatchMode
  pub pattern : Text
  pub flags : Text

-- The messages of a validation, by what they say.
pub data PatternStatus : Type 0 where
  empty too_long plain_ready risky valid_regex syntax_error : PatternStatus

pub record RegexValidation : Type 0 where
  pub valid : Bool
  pub status : PatternStatus
  pub normalized_flags : Text

abbrev pub max_pattern_length : ℕ
max_pattern_length = 2_048

abbrev pub max_sample_length : ℕ
max_sample_length = 50_000

abbrev must_escape : ℕ → Bool
must_escape c = contains (0x5c ∷ text ".*+?^${}()|[]") c

unfoldable pub escape_regex : Text → Text
escape_regex [] = []
escape_regex (c ∷ s) = if must_escape c then 0x5c ∷ c ∷ escape_regex s else c ∷ escape_regex s

-- `VALID_FLAGS`
abbrev pub valid_flag : ℕ → Bool
valid_flag c = contains (text "imsu") c

unfoldable pub normalize_flags : Text → Text
normalize_flags flags = sort compare (filter valid_flag (unique flags))

module _ (r : RegExp) where
  -- the test of a pattern that the code writes down, which compiles
  abbrev test_literal : Text → Text → Bool
  test_literal source value = elim (r.compile source []) [
    | none ↦ false
    | some matches ↦ matches value
  ]

  abbrev group_with_quantifier : Text
  group_with_quantifier =
      text
        "\\((?:\\\\.|\\[[^\\]]*\\]|[^()])*[+*](?:\\\\.|\\[[^\\]]*\\]|[^()])*\\)\\s*(?:[+*]|\\{\\d+(?:,\\d*)?\\})"

  abbrev repeated_wildcard : Text
  repeated_wildcard = text "(?:\\.\\*|\\.\\+)\\s*(?:[+*]|\\{\\d+(?:,\\d*)?\\})"

  unfoldable pub has_risky_nested_quantifier : Text → Bool
  has_risky_nested_quantifier pattern =
      test_literal group_with_quantifier pattern || test_literal repeated_wildcard pattern

  unfoldable pub has_risky_repetition : Text → Bool
  unfolding has_risky_nested_quantifier has_adjacent_overlapping_quantifiers
      repeated_group_has_overlapping_alternatives
  has_risky_repetition pattern =
      has_risky_nested_quantifier pattern
      || has_adjacent_overlapping_quantifiers pattern
      || repeated_group_has_overlapping_alternatives pattern

  abbrev judged : Bool → PatternStatus → Text → RegexValidation
  judged valid status flags = record { valid = valid; status = status; normalized_flags = flags }

  abbrev compiled : Option (Text → Bool) → Text → RegexValidation
  compiled none flags = judged false syntax_error flags
  compiled (some matches) flags = judged true valid_regex flags

  abbrev validate_mode : MatchMode → Text → Text → RegexValidation
  validate_mode plain pattern flags = judged true plain_ready flags
  validate_mode regex pattern flags =
      if has_risky_repetition pattern
      then judged false risky flags
      else compiled (r.compile pattern flags) flags

  unfoldable pub validate_pattern : MatcherOptions → RegexValidation
  validate_pattern options =
      let flags = normalize_flags options.flags in
      if is_empty options.pattern
      then judged false empty flags
      else if ltb max_pattern_length (length options.pattern)
      then judged false too_long flags
      else validate_mode options.mode options.pattern flags

  abbrev source_of : MatchMode → Text → Text
  source_of plain pattern = escape_regex pattern
  source_of regex pattern = pattern

  abbrev bounded_test : Option (Text → Bool) → Option (Text → Bool)
  bounded_test none = none
  bounded_test (some matches) = some (λ value. matches (take max_sample_length value))

  -- `none` where the construction of the expression throws, as it may for a plain pattern whose
  -- flags are at fault.
  unfoldable pub create_matcher : MatcherOptions → Option (Text → Bool)
  unfolding validate_pattern
  create_matcher options =
      let validation = validate_pattern options in
      if validation.valid
      then bounded_test
          (r.compile (source_of options.mode options.pattern) validation.normalized_flags)
      else some (λ value. false)
