-- ===== src/Regex/Risk.antt =====
-- src/shared/regex.ts: the repetitions that are refused as risky.
use material_email.Prelude.{
  ℕ, zero, suc, ◌+◌, Bool, true, false, not, ◌&&◌, ◌||◌, Option, none, some, List, [], ◌∷◌, ◌++◌,
  map, ltb, leb, nat_beq, if◌then◌else◌, length, drop, any,
}
use material_email.Prelude.Text.{Text, text, starts_with}
use material_email.Regex.Atoms.{
  backslash, slice, PatternAtom, read_pattern_atom, read_unbounded_quantifier_end,
  atoms_can_overlap,
}

-- the test of an atom against the quantified one that ends where it begins
abbrev pub overlaps_prior : Option PatternAtom → ℕ → PatternAtom → Bool
overlaps_prior none index atom = false
overlaps_prior (some prior) index atom =
    nat_beq prior.end index && atoms_can_overlap prior.key atom.key

-- the loop of `hasAdjacentOverlappingQuantifiers`, on fuel
unfoldable pub adjacent_from : ℕ → Text → ℕ → Option PatternAtom → Bool
unfolding read_pattern_atom read_unbounded_quantifier_end atoms_can_overlap
adjacent_from zero pattern index prior = false
adjacent_from (suc fuel) pattern index prior =
    if leb (length pattern) index then false else elim (read_pattern_atom pattern index) [
      | none ↦ adjacent_from fuel pattern (index + 1) none
      | some atom ↦ elim (read_unbounded_quantifier_end pattern atom.end) [
        | none ↦ adjacent_from fuel pattern atom.end none
        | some quantifier_end ↦ elim (overlaps_prior prior index atom) [
          | true ↦ true
          | false ↦
              adjacent_from fuel pattern quantifier_end
                (some (record atom { end = quantifier_end }))
        ]
      ]
    ]

-- Every round moves on by one unit at least, so as many rounds as units are enough.
unfoldable pub has_adjacent_overlapping_quantifiers : Text → Bool
unfolding adjacent_from
has_adjacent_overlapping_quantifiers pattern = adjacent_from (suc (length pattern)) pattern 0 none

-- Where a scan of a pattern stands: in a character class, behind a backslash.
pub record Scan : Type 0 where
  pub in_class : Bool
  pub escaped : Bool

pub data UnitKind : Type 0 where
  skipped plain : UnitKind

-- the common head of the two scanning loops: what is skipped, and the state after it
unfoldable pub scan : Scan → ℕ → Scan × UnitKind
scan s value =
    if s.escaped
    then (record s { escaped = false }, skipped)
    else if nat_beq value backslash
    then (record s { escaped = true }, skipped)
    else if s.in_class
    then (record s { in_class = not (nat_beq value b']') }, skipped)
    else if nat_beq value b'['
    then (record s { in_class = true }, skipped)
    else (s, plain)

abbrev plain_unit : UnitKind → Bool
plain_unit plain = true
plain_unit skipped = false

abbrev start_scan : Scan
start_scan = record { in_class = false; escaped = false }

-- The loop of `splitTopLevelAlternatives`. The depth may fall below 0, so it is counted in closing
-- and opening brackets.
unfoldable pub split_from : Text → Text → Scan → ℕ → ℕ → List Text
unfolding scan
split_from [] current s opened closed = current ∷ []
split_from (value ∷ content) current s opened closed =
    let (s', kind) = scan s value in
    let is_plain = plain_unit kind in
    let splits = is_plain && nat_beq value b'|' && nat_beq opened closed in
    let longer =
      split_from content (if splits then [] else current ++ value ∷ []) s'
        (if is_plain && nat_beq value b'(' then suc opened else opened)
        (if is_plain && nat_beq value b')' then suc closed else closed) in
    if splits then current ∷ longer else longer

unfoldable pub split_top_level_alternatives : Text → List Text
unfolding split_from
split_top_level_alternatives content = split_from content [] start_scan 0 0

abbrev pub add_key : Text → Option (List Text) → Option (List Text)
add_key key none = none
add_key key (some keys) = some (key ∷ keys)

-- the loop of `simpleAlternativeAtoms`, on fuel
unfoldable pub atoms_from : ℕ → Text → ℕ → Option (List Text)
unfolding read_pattern_atom
atoms_from zero alternative index = some []
atoms_from (suc fuel) alternative index =
    if leb (length alternative) index then some [] else elim (read_pattern_atom alternative index) [
      | none ↦ none
      | some atom ↦ add_key atom.key (atoms_from fuel alternative atom.end)
    ]

unfoldable pub simple_alternative_atoms : Text → Option (List Text)
unfolding atoms_from
simple_alternative_atoms alternative = atoms_from (suc (length alternative)) alternative 0

unfoldable pub is_atom_prefix : List Text → List Text → Bool
unfolding atoms_can_overlap
is_atom_prefix [] right = true
is_atom_prefix (atom ∷ left) [] = false
is_atom_prefix (atom ∷ left) (other ∷ right) =
    atoms_can_overlap atom other && is_atom_prefix left right

abbrev is_empty_atoms : Option (List Text) → Bool
is_empty_atoms (some []) = true
is_empty_atoms _ = false

abbrev prefixed : Option (List Text) → Option (List Text) → Bool
prefixed none right = false
prefixed (some left) none = false
prefixed (some left) (some right) = is_atom_prefix left right || is_atom_prefix right left

-- the two nested loops over pairs of alternatives
unfoldable pub any_prefixed : List (Option (List Text)) → Bool
unfolding is_atom_prefix
any_prefixed [] = false
any_prefixed (left ∷ atoms) = any (prefixed left) atoms || any_prefixed atoms

unfoldable pub group_overlaps : Text → Bool
unfolding split_top_level_alternatives simple_alternative_atoms any_prefixed
group_overlaps content =
    let alternatives = split_top_level_alternatives content in
    let atoms = map simple_alternative_atoms alternatives in
    not (ltb (length alternatives) 2) && (any is_empty_atoms atoms || any_prefixed atoms)

-- The loop of `repeatedGroupHasOverlappingAlternatives`: the starts of the open groups are a stack.
unfoldable pub groups_from : Text → Text → ℕ → Scan → List ℕ → Bool
unfolding scan group_overlaps read_unbounded_quantifier_end starts_with
groups_from pattern [] index s groups = false
groups_from pattern (value ∷ rest) index s groups =
    let (s', kind) = scan s value in
    let is_plain = plain_unit kind in
    let opens = is_plain && nat_beq value b'(' in
    let closes = is_plain && nat_beq value b')' in
    let content_start = index + 1 + (if starts_with rest (text "?:") then 2 else 0) in
    let later =
      groups_from pattern rest (suc index) s'
        (if opens then content_start ∷ groups else if closes then drop 1 groups else groups) in
    let repeated : Bool = elim (read_unbounded_quantifier_end pattern (index + 1)) [
      | none ↦ false
      | some _ ↦ true
    ] in
    let overlapping : Bool = elim groups [
      | [] ↦ false
      | start ∷ _ ↦ repeated && group_overlaps (slice pattern start index)
    ] in
    if closes && overlapping then true else later

unfoldable pub repeated_group_has_overlapping_alternatives : Text → Bool
unfolding groups_from
repeated_group_has_overlapping_alternatives pattern = groups_from pattern pattern 0 start_scan []
