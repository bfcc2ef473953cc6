-- ===== src/Regex/Atoms.antt =====
-- src/shared/regex.ts: reading the atoms and the quantifiers of a pattern, by position.
use material_email.Prelude.{
  ℕ, suc, ◌+◌, ◌-◌, Bool, false, not, ◌&&◌, ◌||◌, Option, none, some, [], ◌∷◌, ltb, leb, nat_beq,
  if◌then◌else◌, length, get_elem?, take, drop, contains, nat_eq,
}
use material_email.Prelude.Text.{Text, text, text_beq, is_high, is_low}

abbrev pub backslash : ℕ
backslash = 0x5c

-- `pattern.slice(start, end)`
abbrev pub slice : Text → ℕ → ℕ → Text
slice pattern start end = take (end - start) (drop start pattern)

abbrev pub unit_is : Option ℕ → ℕ → Bool
unit_is none c = false
unit_is (some d) c = nat_beq d c

pub record PatternAtom : Type 0 where
  pub key : Text
  pub end : ℕ

-- the units that begin no atom
abbrev pub breaks_atom : ℕ → Bool
breaks_atom c = contains (text "()|^$*+?{}") c

-- `text.indexOf(unit, start)`, on the text from `start` on
unfoldable pub index_of : ℕ → Text → ℕ → Option ℕ
index_of c [] start = none
index_of c (d ∷ s) start = if nat_beq d c then some start else index_of c s (suc start)

-- the loop over a character class: the position of its closing bracket
unfoldable pub class_end : Text → ℕ → Bool → Option ℕ
class_end [] index escaped = none
class_end (value ∷ s) index escaped =
    let rest = class_end s (suc index) (not escaped && nat_beq value backslash) in
    if not escaped && nat_beq value b']' then some index else rest

abbrev atom_between : Text → ℕ → ℕ → PatternAtom
atom_between pattern start end = record { key = slice pattern start end; end = end }

-- `\p{…}`, `\P{…}` and `\u{…}` with their closing brace, else two units
abbrev pub escape_end : ℕ → Option ℕ → ℕ
escape_end start none = start + 2
escape_end start (some close) = close + 1

abbrev pub read_escape : Text → ℕ → PatternAtom
read_escape pattern start =
    let kind = get_elem? pattern (start + 1) in
    let braced =
      (unit_is kind b'p' || unit_is kind b'P' || unit_is kind b'u')
      && unit_is (get_elem? pattern (start + 2)) b'{' in
    let close = index_of b'}' (drop (start + 3) pattern) (start + 3) in
    atom_between pattern start (escape_end start (if braced then close else none))

abbrev pub read_class : Text → ℕ → Option ℕ → Option PatternAtom
read_class pattern start none = none
read_class pattern start (some close) = some (atom_between pattern start (close + 1))

-- one code point: two units for a surrogate pair
abbrev pub point_length : ℕ → Option ℕ → ℕ
point_length first none = 1
point_length first (some second) = if is_high first && is_low second then 2 else 1

abbrev pub read_at : Text → ℕ → Option ℕ → Option PatternAtom
read_at pattern start none = none
read_at pattern start (some first) =
    if breaks_atom first
    then none
    else if nat_beq first backslash
    then (if leb (length pattern) (start + 1) then none else some (read_escape pattern start))
    else if nat_beq first b'['
    then read_class pattern start (class_end (drop (start + 1) pattern) (start + 1) false)
    else some
        (atom_between pattern start (start + point_length first (get_elem? pattern (start + 1))))

unfoldable pub read_pattern_atom : Text → ℕ → Option PatternAtom
unfolding index_of class_end
read_pattern_atom pattern start = read_at pattern start (get_elem? pattern start)

abbrev pub is_digit : ℕ → Bool
is_digit c = leb b'0' c && leb c b'9'

-- `/^\{\d+,\}/u` behind the brace: the length of the digits, the comma and the closing brace
abbrev comma_brace : Text → ℕ → Option ℕ
comma_brace [] n = none
comma_brace (c ∷ []) n = none
comma_brace (c ∷ d ∷ s) n = if nat_beq c b',' && nat_beq d b'}' then some (n + 2) else none

unfoldable pub open_range : Text → ℕ → Option ℕ
open_range [] n = none
open_range (c ∷ s) n =
    let rest = open_range s (suc n) in
    if is_digit c then rest else if ltb 0 n then comma_brace (c ∷ s) n else none

abbrev pub range_end : ℕ → Option ℕ → Option ℕ
range_end start none = none
range_end start (some n) = some (start + 1 + n)

abbrev pub lazy_end : Text → Option ℕ → Option ℕ
lazy_end pattern none = none
lazy_end pattern (some end) = some (if unit_is (get_elem? pattern end) b'?' then end + 1 else end)

unfoldable pub read_unbounded_quantifier_end : Text → ℕ → Option ℕ
unfolding open_range
read_unbounded_quantifier_end pattern start =
    let first = get_elem? pattern start in
    let end =
      if unit_is first b'*' || unit_is first b'+'
      then some (start + 1)
      else if unit_is first b'{'
      then range_end start (open_range (drop (start + 1) pattern) 0)
      else none in
    lazy_end pattern end

unfoldable pub atoms_can_overlap : Text → Text → Bool
atoms_can_overlap left right =
    text_beq left (text ".") || text_beq right (text ".") || text_beq left right
