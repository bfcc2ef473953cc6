-- ===== src/QuickFilter/Laws.antt =====
-- Results, tag tests and tag toggles of the quick filter (src/shared/quick-filter.ts).
use material_email.Prelude.{
  ℕ, ◌≡◌, ◌≤◌, refl, sym, Bool, true, false, not, ◌&&◌, ◌||◌, Option, none, some, List, [], ◌∷◌,
  ◌++◌, filter, any, all, contains, take, length, nat_beq, arith, ◌≢◌, ltb, if◌then◌else◌, inl, inr,
  Bool-cases, length-filter, length-take_le, length-map, any-append, ◌==◌, zero, suc, subst, sort,
  take-eq_of_le, contains-without,
}
use material_email.Prelude.Text.{Text, text, text_eq, text_beq_iff, text_beq_refl, is_empty, trim}
use material_email.Runtime.{RegExp}
use material_email.Regex.{
  MatchMode, plain, regex, escape_regex, normalize_flags, validate_pattern, create_matcher,
  PatternStatus,
}
use material_email.Regex.Laws.{create_matcher_plain, create_matcher_regex}
use material_email.QuickFilter.{
  any_tag, all_tags, tags_match, QuickFilterState, QuickFilterSubject, QuickFilterResult,
  quick_filter_flags, quick_filter_is_inert, apply_quick_filter, subject_matches, message_of,
  matcher_options, toggle_quick_filter_tag, is_nil, quick_filter_tag_limit, selected, selected_by,
  everything, flags_of_mode,
}

count_all {ℓ} :
    {A : Type ℓ} (p : A → Bool) (xs : List A)
    → nat_beq (length (filter p xs)) (length xs) ≡ all p xs
count_all p [] = refl
count_all p (x ∷ xs) = ground (arith, length-filter p xs, count_all p xs)

count_any {ℓ} :
    {A : Type ℓ} (p : A → Bool) (xs : List A) → not (nat_beq (length (filter p xs)) 0) ≡ any p xs
count_any p [] = refl
count_any p (x ∷ xs) = ground (arith, count_any p xs)

-- The tags match under "all" exactly where every selected tag is there, and under "any" exactly
-- where no tag is selected or some selected tag is there.
pub tags_match_iff :
    (selected tag_ids : List Text)
    → (tags_match all_tags selected tag_ids ≡ all (contains tag_ids) selected)
      × (tags_match any_tag selected tag_ids ≡ (is_nil selected || any (contains tag_ids) selected))
unfolding tags_match
tags_match_iff [] tag_ids = (refl, refl)
tags_match_iff (id ∷ selected) tag_ids =
    (count_all (contains tag_ids) (id ∷ selected), count_any (contains tag_ids) (id ∷ selected))

-- The escape of a plain text compiles under the flags that the quick filter gives it.
abbrev pub CompilesPlain : RegExp → Type 0
CompilesPlain r =
    (pattern : Text) (case_sensitive : Bool)
    → (matches : Text → Bool) × (r.compile (escape_regex pattern)
          (if case_sensitive then [] else text "i")
        ≡ some matches)

matcher_of_mode :
    (r : RegExp) (mode : MatchMode) (pattern flags : Text) (case_sensitive : Bool)
    → CompilesPlain r
    → (matcher : Text → Bool) × (create_matcher r (record {
      mode = mode;
      pattern = pattern;
      flags = flags_of_mode mode flags case_sensitive;
    })
        ≡ some matcher)
unfolding normalize_flags sort
matcher_of_mode r plain pattern flags true c =
    let (matches, e) = c pattern true in create_matcher_plain r pattern [] matches e
matcher_of_mode r plain pattern flags false c =
    let (matches, e) = c pattern false in create_matcher_plain r pattern (text "i") matches e
matcher_of_mode r regex pattern flags case_sensitive c = create_matcher_regex r pattern flags

matcher_total :
    (r : RegExp) (state : QuickFilterState)
    → CompilesPlain r
    → (matches : Text → Bool) × (create_matcher r (matcher_options state) ≡ some matches)
unfolding quick_filter_flags
matcher_total r state c =
    matcher_of_mode r state.mode (trim state.pattern) state.flags state.case_sensitive c

-- Where escaped plain text compiles, the quick filter never throws: it gives a result for each state.
pub apply_quick_filter_total :
    (r : RegExp) (state : QuickFilterState) (subjects : List QuickFilterSubject)
    → CompilesPlain r
    → (result : QuickFilterResult) × (apply_quick_filter r state subjects ≡ some result)
unfolding apply_quick_filter
apply_quick_filter_total r state subjects c =
    let (matches, made) = matcher_total r state c in
    elim (Bool-cases (not state.active || quick_filter_is_inert state)) [
      | inl off ↦ rw off (_, refl)
      | inr on ↦ elim (Bool-cases (is_empty (trim state.pattern))) [
        | inl bare ↦ rw (on, bare) (_, refl)
        | inr given ↦ elim (Bool-cases (validate_pattern r (matcher_options state)).valid) [
          | inl valid ↦ rw (on, given, valid, made) (_, refl)
          | inr invalid ↦ rw (on, given, invalid) (_, refl)
        ]
      ]
    ]

-- What the quick filter gives for some subjects: counts that are right.
abbrev pub IsCounted : List QuickFilterSubject → QuickFilterResult → Type 0
IsCounted subjects result =
    (result.total_count ≡ length subjects)
    × (result.matched_count ≡ length result.messages)
    × (result.matched_count ≤ result.total_count)

selected-IsCounted :
    (state : QuickFilterState) (status : Option PatternStatus) (matcher : Option (Text → Bool))
    (subjects : List QuickFilterSubject)
    → IsCounted subjects (selected state status matcher subjects)
selected-IsCounted state status matcher subjects = (
  refl,
  sym (length-map message_of (filter (subject_matches state matcher) subjects)),
  length-filter (subject_matches state matcher) subjects,
)

everything-IsCounted :
    (inert : Bool) (subjects : List QuickFilterSubject)
    → IsCounted subjects (everything inert subjects)
everything-IsCounted inert subjects = (refl, sym (length-map message_of subjects), omega arith)

-- What a result must be, for what is computed of it
abbrev pub Gives {ℓ} : (QuickFilterResult → Type ℓ) → Option QuickFilterResult → Type ℓ
Gives P none = Unit
Gives P (some result) = P result

selected_by-Gives :
    (state : QuickFilterState) (status : PatternStatus) (matcher : Option (Text → Bool))
    (subjects : List QuickFilterSubject)
    → Gives (IsCounted subjects) (selected_by state status matcher subjects)
selected_by-Gives state status none subjects = tt
selected_by-Gives state status (some matcher) subjects =
    selected-IsCounted state (some status) (some matcher) subjects

apply_quick_filter-Gives :
    (r : RegExp) (state : QuickFilterState) (subjects : List QuickFilterSubject)
    → Gives (IsCounted subjects) (apply_quick_filter r state subjects)
unfolding apply_quick_filter
apply_quick_filter-Gives r state subjects =
    elim (Bool-cases (not state.active || quick_filter_is_inert state)) [
      | inl off ↦ rw off (everything-IsCounted state.active subjects)
      | inr on ↦ elim (Bool-cases (is_empty (trim state.pattern))) [
        | inl bare ↦ rw (on, bare) (selected-IsCounted state none none subjects)
        | inr given ↦ elim (Bool-cases (validate_pattern r (matcher_options state)).valid) [
          | inl valid ↦
              rw (on, given, valid)
                (selected_by-Gives state (validate_pattern r (matcher_options state)).status
                  (create_matcher r (matcher_options state)) subjects)
          | inr invalid ↦ rw (on, given, invalid) (refl, refl, omega arith)
        ]
      ]
    ]

-- The counts of a result are right: the total is the number of subjects, and the matches are as
-- many as the messages and no more than the total.
pub apply_quick_filter_counts :
    (r : RegExp) (state : QuickFilterState) (subjects : List QuickFilterSubject)
    (result : QuickFilterResult)
    → apply_quick_filter r state subjects ≡ some result
    → (result.total_count ≡ length subjects)
      × (result.matched_count ≡ length result.messages)
      × (result.matched_count ≤ result.total_count)
apply_quick_filter_counts r state subjects result h =
    subst (Gives (IsCounted subjects)) h (apply_quick_filter-Gives r state subjects)

zero_ltb : (n : ℕ) → ltb 0 (suc n) ≡ true
zero_ltb n = ground arith

take_snoc {ℓ} :
    {A : Type ℓ} (n : ℕ) (xs : List A) (x : A)
    → length xs ≤ n
    → take n (xs ++ x ∷ []) ≡ (if ltb (length xs) n then xs ++ x ∷ [] else xs)
take_snoc zero [] x h = refl
take_snoc zero (y ∷ xs) x h = absurd (omega arith)
take_snoc {A = A} (suc n) [] x h = rw (take-eq_of_le {A = A} n [] (omega arith), zero_ltb n) refl
take_snoc (suc n) (y ∷ xs) x h = ground (arith, take_snoc n xs x (omega arith))

contains-dropped :
    (id : Text) (ids : List Text) → contains (filter (λ v. not (text_eq.same v id)) ids) id ≡ false
contains-dropped id [] = refl
contains-dropped id (v ∷ ids) = ground (arith, contains-dropped id ids)

abbrev toggled : (n : ℕ) (ids : List Text) (id : Text) → List Text
toggled n ids id =
    if contains ids id
    then filter (λ value. not (text_eq.same value id)) ids
    else take n (ids ++ id ∷ [])

module _ (n : ℕ) (ids : List Text) (id : Text) (h : length ids ≤ n) where
  toggled_bounded : length (toggled n ids id) ≤ n
  toggled_bounded = ground (
    arith,
    length-filter (λ value. not (text_eq.same value id)) ids,
    length-take_le n (ids ++ id ∷ []),
  )

  toggled_itself : contains (toggled n ids id) id ≡ (not (contains ids id) && ltb (length ids) n)
  toggled_itself = ground (
    arith,
    take_snoc n ids id h,
    contains-dropped id ids,
    any-append (λ x. x == id) ids (id ∷ []),
    text_beq_refl id,
  )

  toggled_others :
      (other : Text) → other ≢ id → contains (toggled n ids id) other ≡ contains ids other
  toggled_others other d = ground (
    arith,
    take_snoc n ids id h,
    contains-without id other ids d,
    any-append (λ x. x == other) ids (id ∷ []),
    text_beq_iff id other,
  )

-- From at most twenty selected tags, a toggle leaves at most twenty. The tag is selected afterwards
-- exactly where it was not before and a place was free, and every other tag stays as it was.
pub toggle_quick_filter_tag_lem :
    (state : QuickFilterState) (tag_id : Text)
    → length state.tag_ids ≤ quick_filter_tag_limit
    → let next = (toggle_quick_filter_tag state tag_id).tag_ids in
      (length next ≤ quick_filter_tag_limit)
      × (contains next tag_id ≡ (
          not (contains state.tag_ids tag_id) && ltb (length state.tag_ids) quick_filter_tag_limit))
      × ((other : Text) → other ≢ tag_id → contains next other ≡ contains state.tag_ids other)
unfolding toggle_quick_filter_tag
toggle_quick_filter_tag_lem state tag_id h = (
  toggled_bounded quick_filter_tag_limit state.tag_ids tag_id h,
  toggled_itself quick_filter_tag_limit state.tag_ids tag_id h,
  toggled_others quick_filter_tag_limit state.tag_ids tag_id h,
)
