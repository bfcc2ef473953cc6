-- ===== src/Regex/Advances.antt =====
-- The steps of the scanning loops of src/shared/regex.ts move on in the pattern.
use material_email.Prelude.{
  ℕ, suc, ◌+◌, ◌≤◌, ◌<◌, Bool, true, false, not, ◌&&◌, ◌||◌, Option, none, some, [], ◌∷◌, arith,
  length, leb, nat_beq, drop, get_elem?, if◌then◌else◌, Bool-cases, inl, inr,
}
use material_email.Prelude.Text.{Text}
use material_email.Regex.Atoms.{
  backslash, PatternAtom, index_of, class_end, escape_end, breaks_atom, point_length, read_escape,
  read_class, read_at, read_pattern_atom, open_range, range_end, lazy_end, unit_is,
  read_unbounded_quantifier_end,
}

-- A position that was found is not in front of the start.
abbrev pub IsFrom : ℕ → Option ℕ → Type 0
IsFrom start none = Unit
IsFrom start (some n) = start ≤ n

index_of-IsFrom : (c : ℕ) (s : Text) (start : ℕ) → IsFrom start (index_of c s start)
unfolding index_of
index_of-IsFrom c [] start = tt
index_of-IsFrom c (d ∷ s) start = elim (Bool-cases (nat_beq d c)) [
  | inl here ↦ rw here (omega arith)
  | inr later ↦ rw later (weaken start (index_of c s (suc start)) (index_of-IsFrom c s (suc start)))
]
  where
    weaken : (n : ℕ) (o : Option ℕ) → IsFrom (suc n) o → IsFrom n o
    weaken n none h = tt
    weaken n (some m) h = omega arith

class_end-IsFrom :
    (s : Text) (start : ℕ) (escaped : Bool) → IsFrom start (class_end s start escaped)
unfolding class_end
class_end-IsFrom [] start escaped = tt
class_end-IsFrom (value ∷ s) start escaped = elim (Bool-cases (not escaped && nat_beq value b']')) [
  | inl here ↦ rw here (omega arith)
  | inr later ↦ rw later (
      weaken start (class_end s (suc start) (not escaped && nat_beq value backslash))
        (class_end-IsFrom s (suc start) (not escaped && nat_beq value backslash)))
]
  where
    weaken : (n : ℕ) (o : Option ℕ) → IsFrom (suc n) o → IsFrom n o
    weaken n none h = tt
    weaken n (some m) h = omega arith

-- An atom ends behind its start.
abbrev pub EndsBehind : ℕ → Option PatternAtom → Type 0
EndsBehind start none = Unit
EndsBehind start (some atom) = start < atom.end

escape_end-behind : (start : ℕ) (o : Option ℕ) → IsFrom (start + 3) o → start < escape_end start o
escape_end-behind start none h = omega arith
escape_end-behind start (some n) h = omega arith

none_or : (n : ℕ) (b : Bool) (o : Option ℕ) → IsFrom n o → IsFrom n (if b then o else none)
none_or n true o h = h
none_or n false o h = tt

read_escape-behind : (pattern : Text) (start : ℕ) → start < (read_escape pattern start).end
read_escape-behind pattern start = escape_end-behind start _ (
    none_or (start + 3) _ (index_of b'}' (drop (start + 3) pattern) (start + 3))
      (index_of-IsFrom b'}' (drop (start + 3) pattern) (start + 3)))

read_class-EndsBehind :
    (pattern : Text) (start : ℕ) (o : Option ℕ)
    → IsFrom (start + 1) o
    → EndsBehind start (read_class pattern start o)
read_class-EndsBehind pattern start none h = tt
read_class-EndsBehind pattern start (some close) h = omega arith

point_length_positive : (first : ℕ) (o : Option ℕ) → 0 < point_length first o
point_length_positive first none = omega arith
point_length_positive first (some second) = ground arith

read_at-EndsBehind :
    (pattern : Text) (start : ℕ) (o : Option ℕ) → EndsBehind start (read_at pattern start o)
read_at-EndsBehind pattern start none = tt
read_at-EndsBehind pattern start (some first) = elim (Bool-cases (breaks_atom first)) [
  | inl breaks ↦ rw breaks tt
  | inr begins ↦ elim (Bool-cases (nat_beq first backslash)) [
    | inl escapes ↦ elim (Bool-cases (leb (length pattern) (start + 1))) [
      | inl ends ↦ rw (begins, escapes, ends) tt
      | inr more ↦ rw (begins, escapes, more) (read_escape-behind pattern start)
    ]
    | inr plain ↦ elim (Bool-cases (nat_beq first b'[')) [
      | inl opens ↦
          rw (begins, plain, opens)
            (read_class-EndsBehind pattern start
              (class_end (drop (start + 1) pattern) (start + 1) false)
              (class_end-IsFrom (drop (start + 1) pattern) (start + 1) false))
      | inr other ↦
          rw (begins, plain, other)
            (omega (arith, point_length_positive first (get_elem? pattern (start + 1))))
    ]
  ]
]

pub read_pattern_atom-EndsBehind :
    (pattern : Text) (start : ℕ) → EndsBehind start (read_pattern_atom pattern start)
unfolding read_pattern_atom
read_pattern_atom-EndsBehind pattern start =
    read_at-EndsBehind pattern start (get_elem? pattern start)

range_end-IsFrom : (start : ℕ) (o : Option ℕ) → IsFrom start (range_end start o)
range_end-IsFrom start none = tt
range_end-IsFrom start (some n) = omega arith

lazy_end-IsFrom :
    (pattern : Text) (start : ℕ) (o : Option ℕ) → IsFrom start o → IsFrom start (lazy_end pattern o)
lazy_end-IsFrom pattern start none h = tt
lazy_end-IsFrom pattern start (some n) h = ground arith

pub quantifier-IsFrom :
    (pattern : Text) (start : ℕ) → IsFrom start (read_unbounded_quantifier_end pattern start)
unfolding read_unbounded_quantifier_end
quantifier-IsFrom pattern start = lazy_end-IsFrom pattern start _ (
    ends (unit_is (get_elem? pattern start) b'*' || unit_is (get_elem? pattern start) b'+')
      (unit_is (get_elem? pattern start) b'{'))
  where
    ends :
        (one range : Bool)
        → IsFrom start (
            if one
            then some (start + 1)
            else if range
            then range_end start (open_range (drop (start + 1) pattern) 0)
            else none)
    ends true range = omega arith
    ends false true = range_end-IsFrom start (open_range (drop (start + 1) pattern) 0)
    ends false false = tt
