-- ===== src/Runtime.antt =====
-- What the program takes from the JavaScript runtime and that has no definition in the repository:
-- the Unicode tables and the collation behind string methods, floating-point numbers, date
-- parsing, and the regular-expression engine. Each is an argument of the code that uses it.
use material_email.Prelude.{ℕ, Bool, Option, Ordering, IsComparator}
use material_email.Prelude.Text.{Text}

-- `toLocaleLowerCase("en-US")`, `normalize("NFKC")`, `localeCompare`, and the classes `\p{Letter}`
-- and `\p{Number}`, on one code point.
pub record Unicode : Type 0 where
  pub lower : Text → Text
  pub nfkc : Text → Text
  pub locale_compare : Text → Text → Ordering
  pub is_letter_number : ℕ → Bool
  -- Collation is a consistent comparison.
  pub comparator : IsComparator locale_compare

-- `new RegExp(source, flags)`: `none` where it throws, else what `test` answers.
pub record RegExp : Type 0 where
  pub compile : Text → Text → Option (Text → Bool)

-- JavaScript numbers, as far as the filters calculate with them.
pub record Numbers : Type 1 where
  pub Num : Type 0
  pub of_ℕ : ℕ → Num
  -- `Number(text)` and `Date.parse(text)`, NaN where the text has no such reading
  pub parse : Text → Num
  pub date_parse : Text → Num
  pub is_finite : Num → Bool
  pub less : Num → Num → Bool
  pub equal : Num → Num → Bool
  pub sub : Num → Num → Num
  pub div : Num → Num → Num
  pub max : Num → Num → Num
  pub trunc : Num → Num
