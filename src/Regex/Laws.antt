-- ===== src/Regex/Laws.antt =====
-- When `createMatcher` of src/shared/regex.ts gives a matcher.
use material_email.Prelude.{◌≡◌, refl, Bool, some, length, inl, inr, Bool-cases, Option-cases, ltb}
use material_email.Prelude.Text.{Text, is_empty}
use material_email.Runtime.{RegExp}
use material_email.Regex.{
  plain, regex, escape_regex, normalize_flags, has_risky_repetition, validate_pattern,
  create_matcher, max_pattern_length,
}

-- The matcher of a plain pattern exists where the escaped pattern compiles.
pub create_matcher_plain :
    (r : RegExp) (pattern flags : Text) (matches : Text → Bool)
    → r.compile (escape_regex pattern) (normalize_flags flags) ≡ some matches
    → (matcher : Text → Bool) × (create_matcher r
          (record { mode = plain; pattern = pattern; flags = flags })
        ≡ some matcher)
unfolding create_matcher validate_pattern
create_matcher_plain r pattern flags matches h = elim (Bool-cases (is_empty pattern)) [
  | inl none_given ↦ rw none_given (_, refl)
  | inr given ↦ elim (Bool-cases (ltb max_pattern_length (length pattern))) [
    | inl long ↦ rw (given, long) (_, refl)
    | inr short ↦ rw (given, short, h) (_, refl)
  ]
]

-- The matcher of an expression always exists: where the expression is refused it matches nothing.
pub create_matcher_regex :
    (r : RegExp) (pattern flags : Text)
    → (matcher : Text → Bool) × (create_matcher r
          (record { mode = regex; pattern = pattern; flags = flags })
        ≡ some matcher)
unfolding create_matcher validate_pattern
create_matcher_regex r pattern flags = elim (Bool-cases (is_empty pattern)) [
  | inl none_given ↦ rw none_given (_, refl)
  | inr given ↦ elim (Bool-cases (ltb max_pattern_length (length pattern))) [
    | inl long ↦ rw (given, long) (_, refl)
    | inr short ↦ elim (Bool-cases (has_risky_repetition r pattern)) [
      | inl risky ↦ rw (given, short, risky) (_, refl)
      | inr calm ↦ elim (Option-cases (r.compile pattern (normalize_flags flags))) [
        | inl refused ↦ rw (given, short, calm, refused) (_, refl)
        | inr (matches, compiles) ↦ rw (given, short, calm, compiles, compiles) (_, refl)
      ]
    ]
  ]
]
