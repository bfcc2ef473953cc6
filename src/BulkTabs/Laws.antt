-- ===== src/BulkTabs/Laws.antt =====
-- The tabs that a search closes (src/renderer/lib/bulk-tab-close.ts).
use material_email.Prelude.{
  ◌≡◌, ◌++◌, Perm, refl, subst, Bool, true, false, not, ◌&&◌, ◌||◌, Option, none, some, List, [],
  ◌∷◌, map, filter, any, All, All-map, All-filter, All-of_map, filter_sound, arith, inl, inr,
  Bool-cases,
}
use material_email.BulkTabs.Shares.{IsShare, closed-eq, left_out-eq, IsShare-all}
use material_email.Prelude.Text.{Text, text_beq, text_beq_refl, is_empty, trim}
use material_email.Runtime.{RegExp}
use material_email.Regex.{validate_pattern, create_matcher}
use material_email.BulkTabs.{
  BulkTabCloseReview, TabCandidate, BulkTabCloseEvaluation, ready, is_selected, tab_id, is_free,
  evaluated, evaluate_bulk_tab_close,
}

-- The tab with an identifier that may be closed.
abbrev pub may_close : Bool → Text → TabCandidate → Bool
may_close include_pinned id candidate =
    text_beq candidate.id id && (include_pinned || not candidate.pinned)

candidates_may_close :
    (include_pinned : Bool) (candidates : List TabCandidate)
    → All
        (λ c.
          is_free include_pinned c ≡ true → any (may_close include_pinned c.id) candidates ≡ true)
        candidates
candidates_may_close include_pinned [] = tt
candidates_may_close include_pinned (c ∷ candidates) = (
  (λ f. ground (arith, text_beq_refl c.id)),
  All-map (λ d h f. ground (arith, h f)) candidates
      (candidates_may_close include_pinned candidates),
)

All-apply {ℓ κ ν} :
    {A : Type ℓ} (P : A → Type κ) (Q : A → Type ν) (xs : List A)
    → All (λ x. P x → Q x) xs
    → All P xs
    → All Q xs
All-apply P Q [] f h = tt
All-apply P Q (x ∷ xs) (f, fs) (h, hs) = (f h, All-apply P Q xs fs hs)

closed_may_close :
    (p : TabCandidate → Bool) (include_pinned : Bool) (candidates : List TabCandidate)
    → All
        (λ id. any (may_close include_pinned id) candidates ≡ true)
        (map tab_id (filter (is_free include_pinned) (filter p candidates)))
closed_may_close p include_pinned candidates =
    All-of_map (λ id. any (may_close include_pinned id) candidates ≡ true) tab_id
      (filter (is_free include_pinned) (filter p candidates))
      (All-apply (λ c. is_free include_pinned c ≡ true)
        (λ c. any (may_close include_pinned c.id) candidates ≡ true)
        (filter (is_free include_pinned) (filter p candidates))
        (All-filter _ (is_free include_pinned) (filter p candidates)
          (All-filter _ p candidates (candidates_may_close include_pinned candidates)))
        (filter_sound (is_free include_pinned) (filter p candidates)))

-- What an evaluation must be, for what is computed of it
abbrev OnResult {ℓ} : (BulkTabCloseEvaluation → Type ℓ) → Option BulkTabCloseEvaluation → Type ℓ
OnResult P none = Unit
OnResult P (some result) = P result

abbrev Closable : BulkTabCloseReview → List TabCandidate → BulkTabCloseEvaluation → Type 0
Closable review candidates result =
    All (λ id. any (may_close review.include_pinned id) candidates ≡ true) result.tab_ids

evaluated-may_close :
    (review : BulkTabCloseReview) (candidates : List TabCandidate) (matcher : Option (Text → Bool))
    → OnResult (Closable review candidates) (evaluated review candidates matcher)
evaluated-may_close review candidates none = tt
evaluated-may_close review candidates (some matches) =
    closed_may_close (is_selected matches review.inverse) review.include_pinned candidates

evaluation-Closable :
    (r : RegExp) (candidates : List TabCandidate) (review : BulkTabCloseReview)
    → OnResult (Closable review candidates) (evaluate_bulk_tab_close r candidates review)
unfolding evaluate_bulk_tab_close
evaluation-Closable r candidates review =
    elim (Bool-cases (is_empty (trim review.search.pattern))) [
      | inl blank ↦ rw blank tt
      | inr given ↦ elim (Bool-cases (validate_pattern r review.search).valid) [
        | inl valid ↦
            rw (given, valid)
              (evaluated-may_close review candidates (create_matcher r review.search))
        | inr invalid ↦ rw (given, invalid) tt
      ]
    ]

-- Every tab that is closed is one of the candidates, and not a pinned one unless pinned tabs are
-- included.
pub evaluate_bulk_tab_close-may_close :
    (r : RegExp) (candidates : List TabCandidate) (review : BulkTabCloseReview)
    (result : BulkTabCloseEvaluation)
    → evaluate_bulk_tab_close r candidates review ≡ some result
    → All (λ id. any (may_close review.include_pinned id) candidates ≡ true) result.tab_ids
evaluate_bulk_tab_close-may_close r candidates review result h =
    subst (OnResult (Closable review candidates)) h (evaluation-Closable r candidates review)

-- What a search and its inverse must be, with the matcher of the search.
abbrev SharedOut :
    RegExp
    → List TabCandidate
    → BulkTabCloseReview
    → BulkTabCloseEvaluation
    → BulkTabCloseEvaluation
    → Type 0
SharedOut r candidates review first second =
    (matches : Text → Bool) × (create_matcher r review.search ≡ some matches)
    × IsShare (λ (c : TabCandidate). matches c.label) review.include_pinned candidates first
    × IsShare (λ (c : TabCandidate). not (matches c.label)) review.include_pinned candidates second
    × Perm
        ((first.tab_ids ++ first.excluded_pinned_ids)
          ++ (second.tab_ids ++ second.excluded_pinned_ids))
        (map tab_id candidates)

shares :
    (r : RegExp) (review : BulkTabCloseReview) (candidates : List TabCandidate)
    (matcher : Option (Text → Bool)) (first second : BulkTabCloseEvaluation)
    → create_matcher r review.search ≡ matcher
    → evaluated (record review { inverse = false }) candidates matcher ≡ some first
    → evaluated (record review { inverse = true }) candidates matcher ≡ some second
    → SharedOut r candidates review first second
shares r review candidates none first second e h k = absurd (cc)
shares r review candidates (some matches) first second e h k =
    let inc = review.include_pinned in
    let straight : IsShare (λ (c : TabCandidate). matches c.label) inc candidates first =
      subst (IsShare (λ (c : TabCandidate). matches c.label) inc candidates) (some_injective h)
        record {
          closed = closed-eq (is_selected matches false) inc candidates;
          left_out = left_out-eq (is_selected matches false) inc candidates;
        } in
    let opposite : IsShare (λ (c : TabCandidate). not (matches c.label)) inc candidates second =
      subst (IsShare (λ (c : TabCandidate). not (matches c.label)) inc candidates)
        (some_injective k)
        record {
          closed = closed-eq (is_selected matches true) inc candidates;
          left_out = left_out-eq (is_selected matches true) inc candidates;
        } in
    (
      matches,
      e,
      straight,
      opposite,
      IsShare-all (λ (c : TabCandidate). matches c.label) inc candidates first second straight
          opposite,
    )
  where
    some_injective : {x y : BulkTabCloseEvaluation} → some x ≡ some y → x ≡ y
    some_injective p = cc

-- A search that is ready closes the tabs whose labels match, its inverse those whose labels do not,
-- each of them in order, without the pinned ones unless these are included, and leaves out the pinned
-- ones of these otherwise; the four lists together are the candidates, each as often as it occurs.
pub evaluate_bulk_tab_close-inverse :
    (r : RegExp) (candidates : List TabCandidate) (review : BulkTabCloseReview)
    (first second : BulkTabCloseEvaluation)
    → first.status ≡ ready
    → evaluate_bulk_tab_close r candidates (record review { inverse = false }) ≡ some first
    → evaluate_bulk_tab_close r candidates (record review { inverse = true }) ≡ some second
    → (matches : Text → Bool) × (create_matcher r review.search ≡ some matches)
      × IsShare (λ (c : TabCandidate). matches c.label) review.include_pinned candidates first
      × IsShare
          (λ (c : TabCandidate). not (matches c.label))
          review.include_pinned
          candidates
          second
      × Perm
          ((first.tab_ids ++ first.excluded_pinned_ids)
            ++ (second.tab_ids ++ second.excluded_pinned_ids))
          (map tab_id candidates)
unfolding evaluate_bulk_tab_close
evaluate_bulk_tab_close-inverse r candidates review first second e h k =
    elim (Bool-cases (is_empty (trim review.search.pattern))) [
      | inl blank ↦ absurd (ground arith)
      | inr given ↦ elim (Bool-cases (validate_pattern r review.search).valid) [
        | inl valid ↦
            shares r review candidates (create_matcher r review.search) first second refl
              (rw (given, valid) at h) (rw (given, valid) at k)
        | inr invalid ↦ absurd (ground arith)
      ]
    ]
