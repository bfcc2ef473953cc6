-- ===== src/Organization/Reordering.antt =====
-- The loop of `reorderFilters` (src/main/mail-organization.ts).
use mathlib.Core.List.{append_assoc}
use mathlib.Core.List.Perm
use material_email.Prelude.{
  ◌≡◌, ◌≢◌, refl, sym, subst, ap, ◌∙◌, not, Option, none, some, List, [], ◌∷◌, ◌++◌, arith, filter,
  find?, any, All, All-map, AllPairs, AllPairs-filter, Perm, Bool-cases, Option-cases, inl, inr,
  if◌then◌else◌,
}
use material_email.Prelude.Text.{Text, text_beq, text_beq_iff, text_beq_refl}
use material_email.Mail.{Object, lookup, insert, erase}
use material_email.Mail.Objects.{lookup-insert, lookup-erase}
use material_email.Filters.{MessageFilter}
use material_email.Organization.FilterList.{
  has_filter_id, by_id, Reordering, reorder_step, reorder_from, is_left, reordered,
}

-- Filters with identifiers of their own, as the stored ones have.
abbrev pub HasDistinctIds : List MessageFilter → Type 0
HasDistinctIds = AllPairs (λ f g. g.id ≢ f.id)

abbrev pub others : Text → List MessageFilter → List MessageFilter
others id = filter (λ f. not (has_filter_id id f))

absent_id :
    (id : Text) (filters : List MessageFilter)
    → All (λ g. g.id ≢ id) filters
    → find? (has_filter_id id) filters ≡ none
absent_id id [] h = refl
absent_id id (g ∷ filters) (h, hs) = ground (arith, text_beq_iff g.id id, absent_id id filters hs)

others_of_absent :
    (id : Text) (filters : List MessageFilter)
    → All (λ g. g.id ≢ id) filters
    → others id filters ≡ filters
others_of_absent id [] h = refl
others_of_absent id (g ∷ filters) (h, hs) =
    ground (arith, text_beq_iff g.id id, others_of_absent id filters hs)

found-perm :
    (id : Text) (f : MessageFilter) (filters : List MessageFilter)
    → HasDistinctIds filters
    → find? (has_filter_id id) filters ≡ some f
    → Perm (f ∷ others id filters) filters
found-perm id f [] d h = absurd (cc)
found-perm id f (g ∷ filters) (d, ds) h = elim (Bool-cases (has_filter_id id g)) [
  | inl same ↦
      let first : g ≡ f = ground arith in
      let alone : others id filters ≡ filters =
        others_of_absent id filters
          (subst (λ i. All (λ x. x.id ≢ i) filters) ((text_beq_iff g.id id).0 same) d) in
      rw (same, alone, first) (Perm.refl _)
  | inr other ↦ rw other (
      Perm.trans (Perm.swap g f (others id filters))
        (Perm.cons g (found-perm id f filters ds (rw other at h))))
]

find?-others :
    (id j : Text) (filters : List MessageFilter)
    → find? (has_filter_id j) (others id filters)
      ≡ (if text_beq id j then none else find? (has_filter_id j) filters)
find?-others id j [] = ground arith
find?-others id j (g ∷ filters) =
    ground (
      arith,
      text_beq_iff id j,
      text_beq_iff g.id id,
      text_beq_iff g.id j,
      find?-others id j filters,
    )

-- What is not left of a smaller choice is not left of a larger one.
filter-others :
    (rest : Object MessageFilter) (id : Text) (filters : List MessageFilter)
    → lookup id rest ≡ none
    → filter (is_left rest) (others id filters) ≡ filter (is_left rest) filters
filter-others rest id [] h = refl
filter-others rest id (g ∷ filters) h = elim (Bool-cases (has_filter_id id g)) [
  | inl same ↦
      let gone : lookup g.id rest ≡ none = rw ((text_beq_iff g.id id).0 same) h in
      rw (same, gone) (filter-others rest id filters h)
  | inr other ↦ rw other (ground (arith, filter-others rest id filters h))
]

-- the map of the filters that are left holds each of these under its identifier
abbrev Indexes : Object MessageFilter → List MessageFilter → Type 0
Indexes rest left = (j : Text) → lookup j rest ≡ find? (has_filter_id j) left

lookup-reorder_from-none :
    (state : Reordering) (ids : List Text) (id : Text)
    → lookup id state.rest ≡ none
    → lookup id (reorder_from state ids).rest ≡ none
unfolding reorder_from
lookup-reorder_from-none state [] id h = h
lookup-reorder_from-none state (i ∷ ids) id h =
    lookup-reorder_from-none (reorder_step state i (lookup i state.rest)) ids id
      (step (lookup i state.rest))
  where
    step : (o : Option MessageFilter) → lookup id (reorder_step state i o).rest ≡ none
    step none = h
    step (some f) = ground (arith, lookup-erase i id state.rest)

All-left :
    (rest : Object MessageFilter) (left filters : List MessageFilter)
    → Indexes rest left
    → All (λ f. find? (has_filter_id f.id) left ≢ none) filters
    → filter (is_left rest) filters ≡ filters
All-left rest left [] ix h = refl
All-left rest left (f ∷ filters) ix (h, hs) =
    ground (arith, ix f.id, All-left rest left filters ix hs)

found_self :
    (filters : List MessageFilter) → All (λ f. find? (has_filter_id f.id) filters ≢ none) filters
found_self [] = tt
found_self (f ∷ filters) = (
  ground (arith, text_beq_refl f.id),
  All-map (λ (g : MessageFilter) h. ground arith) filters (found_self filters),
)

-- the filters of a state and those that are left, against those of an earlier state
abbrev Keeps : Reordering → List MessageFilter → Reordering → Type 0
Keeps state left final =
    Perm (final.ordered ++ filter (is_left final.rest) left) (state.ordered ++ left)

reorder_from-perm :
    (state : Reordering) (left : List MessageFilter) (ids : List Text)
    → Indexes state.rest left
    → HasDistinctIds left
    → Keeps state left (reorder_from state ids)
unfolding reorder_from
reorder_from-perm state left [] ix d =
    rw (All-left state.rest left left ix (found_self left)) (Perm.refl _)
reorder_from-perm state left (id ∷ ids) ix d = elim (Option-cases (lookup id state.rest)) [
  | inl missing ↦
      subst (λ o. Keeps state left (reorder_from (reorder_step state id o) ids)) (sym missing)
        (reorder_from-perm state left ids ix d)
  | inr (f, found) ↦ elim (Bool-cases (any (has_filter_id id) state.ordered)) [
    | inl old ↦
        subst (λ o. Keeps state left (reorder_from (reorder_step state id o) ids)) (sym found)
          (subst (λ b. Keeps state left (reorder_from (if b then state else appended f) ids))
            (sym old) (reorder_from-perm state left ids ix d))
    | inr new ↦
        let state' = appended f in
        let gone : lookup id (reorder_from state' ids).rest ≡ none =
          lookup-reorder_from-none state' ids id
            (lookup-erase id id state.rest ∙ rw (text_beq_refl id)) in
        subst (λ o. Keeps state left (reorder_from (reorder_step state id o) ids)) (sym found)
          (subst (λ b. Keeps state left (reorder_from (if b then state else state') ids)) (sym new)
            (Perm.trans
              (subst
                (λ l.
                  Perm ((reorder_from state' ids).ordered ++ l) (state'.ordered ++ others id left))
                (filter-others (reorder_from state' ids).rest id left gone)
                (reorder_from-perm state' (others id left) ids (erased ix) distinct))
              (subst (λ l. Perm l (state.ordered ++ left))
                (sym (append_assoc state.ordered (f ∷ []) (others id left)))
                (Perm.append_left state.ordered (found-perm id f left d (sym (ix id) ∙ found))))))
  ]
]
  where
    appended : MessageFilter → Reordering
    appended f = record { ordered = state.ordered ++ f ∷ []; rest = erase id state.rest }

    distinct : HasDistinctIds (others id left)
    distinct = AllPairs-filter (λ g h. h.id ≢ g.id) (λ g. not (has_filter_id id g)) left d

    erased : Indexes state.rest left → Indexes (erase id state.rest) (others id left)
    erased ix j = ground (arith, lookup-erase id j state.rest, ix j, find?-others id j left)

abbrev or_found : Option MessageFilter → Option MessageFilter → Option MessageFilter
or_found none o = o
or_found (some f) o = some f

lookup-by_id :
    (filters : List MessageFilter) (found : Object MessageFilter) (j : Text)
    → HasDistinctIds filters
    → lookup j (by_id filters found) ≡ or_found (find? (has_filter_id j) filters) (lookup j found)
unfolding by_id
lookup-by_id [] found j d = refl
lookup-by_id (f ∷ filters) found j (d, ds) = elim (Bool-cases (has_filter_id j f)) [
  | inl same ↦
      let alone : find? (has_filter_id j) filters ≡ none =
        absent_id j filters
          (subst (λ i. All (λ g. g.id ≢ i) filters) ((text_beq_iff f.id j).0 same) d) in
      rw same (
        lookup-by_id filters (insert f.id f found) j ds
        ∙ rw alone (lookup-insert f.id j f found ∙ rw same))
  | inr other ↦ rw other (
      lookup-by_id filters (insert f.id f found) j ds
      ∙ ap (or_found (find? (has_filter_id j) filters)) (lookup-insert f.id j f found ∙ rw other))
]

-- If no two stored filters share an identifier, then whatever identifiers are listed, known or not,
-- once or more often, the reordered filters are the stored ones, each exactly once.
pub reordered-perm :
    (existing : List MessageFilter) (ordered_ids : List Text)
    → HasDistinctIds existing
    → Perm (reordered existing ordered_ids) existing
unfolding reordered
reordered-perm existing ordered_ids d =
    reorder_from-perm (record { ordered = []; rest = by_id existing [] }) existing ordered_ids
      (λ j.
        lookup-by_id existing [] j d ∙ unfold lookup in or_none (find? (has_filter_id j) existing))
      d
  where
    or_none : (o : Option MessageFilter) → or_found o none ≡ o
    or_none none = refl
    or_none (some f) = refl
