-- ===== src/BulkTabs.antt =====
-- src/renderer/lib/bulk-tab-close.ts: which tabs a search closes.
pub mod Laws
pub mod Shares
use material_email.Prelude.{
  Bool, true, false, not, ◌&&◌, ◌||◌, Option, none, some, List, [], ◌∷◌, map, filter, if◌then◌else◌,
}
use material_email.Prelude.Text.{Text, text, is_empty, trim}
use material_email.Runtime.{RegExp}
use material_email.Regex.{plain, MatcherOptions, validate_pattern, create_matcher}

pub record BulkTabCloseReview : Type 0 where
  pub search : MatcherOptions
  pub inverse : Bool
  pub include_pinned : Bool

pub record TabCandidate : Type 0 where
  pub id : Text
  pub label : Text
  pub pinned : Bool

pub data CloseStatus : Type 0 where
  empty invalid ready : CloseStatus

pub record BulkTabCloseEvaluation : Type 0 where
  pub status : CloseStatus
  pub tab_ids : List Text
  pub excluded_pinned_ids : List Text

unfoldable pub default_bulk_tab_close_review : BulkTabCloseReview
default_bulk_tab_close_review = record {
  search = record { mode = plain; pattern = []; flags = text "i" };
  inverse = false;
  include_pinned = false;
}

abbrev pub is_selected : (Text → Bool) → Bool → TabCandidate → Bool
is_selected matches inverse candidate =
    if inverse then not (matches candidate.label) else matches candidate.label

abbrev pub tab_id : TabCandidate → Text
tab_id candidate = candidate.id

abbrev pub is_free : Bool → TabCandidate → Bool
is_free include_pinned candidate = include_pinned || not candidate.pinned

abbrev pub ready_with : BulkTabCloseReview → List TabCandidate → BulkTabCloseEvaluation
ready_with review selected = record {
  status = ready;
  tab_ids = map tab_id (filter (is_free review.include_pinned) selected);
  excluded_pinned_ids =
      if review.include_pinned
      then []
      else map tab_id (filter (λ (candidate : TabCandidate). candidate.pinned) selected);
}

abbrev pub evaluated :
    BulkTabCloseReview → List TabCandidate → Option (Text → Bool) → Option BulkTabCloseEvaluation
evaluated review candidates none = none
evaluated review candidates (some matches) =
    some (ready_with review (filter (is_selected matches review.inverse) candidates))

abbrev pub closes_nothing : CloseStatus → BulkTabCloseEvaluation
closes_nothing status = record { status = status; tab_ids = []; excluded_pinned_ids = [] }

-- `none` where the construction of the matcher throws.
unfoldable pub evaluate_bulk_tab_close :
    RegExp → List TabCandidate → BulkTabCloseReview → Option BulkTabCloseEvaluation
evaluate_bulk_tab_close r candidates review =
    if is_empty (trim review.search.pattern)
    then some (closes_nothing empty)
    else if not (validate_pattern r review.search).valid
    then some (closes_nothing invalid)
    else evaluated review candidates (create_matcher r review.search)
