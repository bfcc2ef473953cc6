-- ===== src/Regex/Scanners.antt =====
-- The scanning loops of src/shared/regex.ts end by their own tests.
use material_email.Prelude.{
  ℕ, zero, suc, ◌+◌, ◌≤◌, ◌<◌, ◌≡◌, Bool, true, false, Option, none, some, List, [], arith, length,
  leb, leb→le, Bool-cases, Option-cases, inl, inr,
}
use material_email.Prelude.Text.{Text}
use material_email.Regex.Atoms.{PatternAtom, read_pattern_atom, read_unbounded_quantifier_end}
use material_email.Regex.Risk.{
  overlaps_prior, adjacent_from, has_adjacent_overlapping_quantifiers, add_key, atoms_from,
  simple_alternative_atoms,
}
use material_email.Regex.Advances.{read_pattern_atom-EndsBehind, quantifier-IsFrom}

-- A run of the loop of `hasAdjacentOverlappingQuantifiers` that ends by its own tests, from an index
-- and the quantified atom in front of it, and what it finds: round by round, without fuel.
pub data Scans (pattern : Text) : ℕ → Option PatternAtom → Bool → Type 0 where
  ended :
      (index : ℕ) (prior : Option PatternAtom)
      → length pattern ≤ index
      → Scans pattern index prior false
  passed :
      (index : ℕ) (prior : Option PatternAtom) (found : Bool)
      → index < length pattern
      → read_pattern_atom pattern index ≡ none
      → Scans pattern (index + 1) none found
      → Scans pattern index prior found
  once :
      (index : ℕ) (prior : Option PatternAtom) (found : Bool) (atom : PatternAtom)
      → index < length pattern
      → read_pattern_atom pattern index ≡ some atom
      → read_unbounded_quantifier_end pattern atom.end ≡ none
      → Scans pattern atom.end none found
      → Scans pattern index prior found
  repeated :
      (index : ℕ) (prior : Option PatternAtom) (found : Bool) (atom : PatternAtom) (end : ℕ)
      → index < length pattern
      → read_pattern_atom pattern index ≡ some atom
      → read_unbounded_quantifier_end pattern atom.end ≡ some end
      → overlaps_prior prior index atom ≡ false
      → Scans pattern end (some (record atom { end = end })) found
      → Scans pattern index prior found
  overlapped :
      (index : ℕ) (prior : Option PatternAtom) (atom : PatternAtom) (end : ℕ)
      → index < length pattern
      → read_pattern_atom pattern index ≡ some atom
      → read_unbounded_quantifier_end pattern atom.end ≡ some end
      → overlaps_prior prior index atom ≡ true
      → Scans pattern index prior true

-- a run of the loop of `simpleAlternativeAtoms` that ends by its own tests
pub data Takes (alternative : Text) : ℕ → Option (List Text) → Type 0 where
  done : (index : ℕ) → length alternative ≤ index → Takes alternative index (some [])
  blocked :
      (index : ℕ)
      → index < length alternative
      → read_pattern_atom alternative index ≡ none
      → Takes alternative index none
  took :
      (index : ℕ) (atom : PatternAtom) (keys : Option (List Text))
      → index < length alternative
      → read_pattern_atom alternative index ≡ some atom
      → Takes alternative atom.end keys
      → Takes alternative index (add_key atom.key keys)

adjacent_from-Scans :
    (fuel : ℕ) (pattern : Text) (index : ℕ) (prior : Option PatternAtom)
    → length pattern < index + fuel
    → Scans pattern index prior (adjacent_from fuel pattern index prior)
unfolding adjacent_from
adjacent_from-Scans zero pattern index prior h = ended index prior (omega (arith, h))
adjacent_from-Scans (suc fuel) pattern index prior h =
    elim (Bool-cases (leb (length pattern) index)) [
      | inl over ↦ rw over (ended index prior (leb→le (length pattern) index over))
      | inr more ↦
          let inside : index < length pattern = ground arith in
          elim (Option-cases (read_pattern_atom pattern index)) [
            | inl no_atom ↦
                rw (more, no_atom)
                  (passed index prior _ inside no_atom
                    (adjacent_from-Scans fuel pattern (index + 1) none (omega (arith, h))))
            | inr (atom, read) ↦
                let behind : index < atom.end =
                  rw read at (read_pattern_atom-EndsBehind pattern index) in
                elim (Option-cases (read_unbounded_quantifier_end pattern atom.end)) [
                  | inl single ↦
                      rw (more, read, single)
                        (once index prior _ atom inside read single (
                          adjacent_from-Scans fuel pattern atom.end none
                            (omega (arith, h, behind))))
                  | inr (end, quantified) ↦
                      let further : atom.end ≤ end =
                        rw quantified at (quantifier-IsFrom pattern atom.end) in
                      elim (Bool-cases (overlaps_prior prior index atom)) [
                        | inl overlap ↦
                            rw (more, read, quantified, overlap)
                              (overlapped index prior atom end inside read quantified overlap)
                        | inr apart ↦
                            rw (more, read, quantified, apart)
                              (repeated index prior _ atom end inside read quantified apart (
                                adjacent_from-Scans fuel pattern end
                                  (some (record atom { end = end }))
                                  (omega (arith, h, behind, further))))
                      ]
                ]
          ]
    ]

atoms_from-Takes :
    (fuel : ℕ) (alternative : Text) (index : ℕ)
    → length alternative < index + fuel
    → Takes alternative index (atoms_from fuel alternative index)
unfolding atoms_from
atoms_from-Takes zero alternative index h = done index (omega (arith, h))
atoms_from-Takes (suc fuel) alternative index h =
    elim (Bool-cases (leb (length alternative) index)) [
      | inl over ↦ rw over (done index (leb→le (length alternative) index over))
      | inr more ↦
          let inside : index < length alternative = ground arith in
          elim (Option-cases (read_pattern_atom alternative index)) [
            | inl no_atom ↦ rw (more, no_atom) (blocked index inside no_atom)
            | inr (atom, read) ↦
                let behind : index < atom.end =
                  rw read at (read_pattern_atom-EndsBehind alternative index) in
                rw (more, read)
                  (took index atom _ inside read
                    (atoms_from-Takes fuel alternative atom.end (omega (arith, h, behind))))
          ]
    ]

-- For every text, the loop that looks for adjacent repetitions and the loop that takes an
-- alternative apart end by their own tests after finitely many rounds, each of which goes on at the
-- next unit, the end of the atom or the end of its repetition, and what the run finds is what the
-- function returns.
pub scanners_end :
    (pattern : Text)
    → Scans pattern 0 none (has_adjacent_overlapping_quantifiers pattern)
      × Takes pattern 0 (simple_alternative_atoms pattern)
unfolding has_adjacent_overlapping_quantifiers simple_alternative_atoms
scanners_end pattern = (
  adjacent_from-Scans (suc (length pattern)) pattern 0 none (omega arith),
  atoms_from-Takes (suc (length pattern)) pattern 0 (omega arith),
)
