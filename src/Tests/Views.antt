-- ===== src/Tests/Views.antt =====
-- Attachments, the quick filter and the unified folders: the theorems at small values.
use material_email.Prelude.{
  Perm, map, not, ℕ, ◌≡◌, ◌≢◌, ◌<◌, ◌≤◌, ◌↔◌, refl, Bool, true, false, not, ◌&&◌, ◌||◌, Option,
  none, some, List, [], ◌∷◌, ◌++◌, arith, any, all, contains, length, AllPairs, All, ltb, ◌+◌, ◌+◌,
  suc,
}
use material_email.Regex.Risk.{has_adjacent_overlapping_quantifiers, simple_alternative_atoms}
use material_email.Regex.Scanners.{Scans, Takes, scanners_end}
use material_email.Prelude.Text.{Text, text, text_beq, text_eq}
use material_email.Mail.{MessageSummary, FolderSummary}
use material_email.Regex.{
  MatchMode, plain, regex, MatcherOptions, escape_regex, normalize_flags, create_matcher,
}
use material_email.Attachments.{
  RiskLevel, ordinary, dangerous, RiskReviewItem, found_reasons, classify_attachment,
  attachment_save_review_matches,
}
use material_email.Attachments.Names.{filename_only, extension_of, has_bidirectional_control}
use material_email.Attachments.Danger.{
  is_windows_extension, classify_attachment_dangerous, classify_attachment-pad_dangerous,
}
use material_email.Attachments.Reviews.{attachment_save_review_matches_iff}
use material_email.QuickFilter.{
  TagMatch, any_tag, all_tags, tags_match, QuickFilterState, QuickFilterSubject, QuickFilterResult,
  apply_quick_filter, toggle_quick_filter_tag, is_nil, quick_filter_tag_limit,
  empty_quick_filter_state, everything,
}
use material_email.QuickFilter.Laws.{CompilesPlain, apply_quick_filter_total}
use material_email.UnifiedFolders.{
  UnifiedFolderKind, UnifiedFolderCache, collect_cached_unified_messages, has_message_id, is_shown,
  select_stable_message_id,
}
use material_email.UnifiedFolders.Laws.{
  HasOtherId, IsListed, collect_cached_unified_messages-IsListed,
}
use material_email.BulkTabs.Shares.{IsShare}
use material_email.BulkTabs.{
  tab_id, BulkTabCloseReview, TabCandidate, BulkTabCloseEvaluation, ready, evaluate_bulk_tab_close,
}
use material_email.BulkTabs.Laws.{evaluate_bulk_tab_close-inverse}
use material_email.Tests.Data.{ascii, literal_engine, naturals, message}

abbrev tool : Text
tool = text "docs/report.pdf.exe"

classify_attachment_dangerous_example :
    ((classify_attachment ascii tool (text "application/pdf")).level ≡ dangerous) ↔ (
      (is_windows_extension (extension_of ascii (filename_only tool))
        || has_bidirectional_control (filename_only tool))
      ≡ true)
classify_attachment_dangerous_example =
    classify_attachment_dangerous ascii tool (text "application/pdf")

tool_dangerous : (classify_attachment ascii tool []).level ≡ dangerous
unfolding classify_attachment material_email.Attachments.Tables.windows_executable_extensions
    text_beq extension_of filename_only
tool_dangerous = refl

classify_attachment-pad_dangerous_example :
    (classify_attachment ascii (tool ++ text ". .") []).level ≡ dangerous
classify_attachment-pad_dangerous_example =
    classify_attachment-pad_dangerous ascii tool (text ". .") [] (refl, (refl, (refl, tt)))
      tool_dangerous

abbrev item : RiskReviewItem
item = record { level = dangerous; reasons = []; index = 0; filename = tool; content_type = [] }

attachment_save_review_matches_iff_example :
    (attachment_save_review_matches (item ∷ []) (some []) ≡ true) ↔ (some [] ≡ some (item ∷ []))
attachment_save_review_matches_iff_example =
    attachment_save_review_matches_iff (item ∷ []) (some [])

literal_engine-CompilesPlain : CompilesPlain literal_engine
literal_engine-CompilesPlain pattern case_sensitive = (_, refl)

abbrev greeting : QuickFilterState
greeting = record {
  active = true;
  facets = [];
  tag_ids = text "work" ∷ [];
  tag_match = any_tag;
  mode = plain;
  pattern = text "Hello";
  flags = [];
  case_sensitive = true;
  scopes = [];
}

abbrev subjects : List QuickFilterSubject
subjects =
    record { message = message; tag_ids = text "work" ∷ [] }
    ∷ record { message = message; tag_ids = [] }
    ∷ []

apply_quick_filter_total_example :
    (result : QuickFilterResult) × (apply_quick_filter literal_engine greeting subjects
      ≡ some result)
apply_quick_filter_total_example =
    apply_quick_filter_total literal_engine greeting subjects literal_engine-CompilesPlain

abbrev found : QuickFilterResult
found = record {
  messages = message ∷ [];
  total_count = 2;
  matched_count = 1;
  pattern_valid = true;
  pattern_status = some material_email.Regex.plain_ready;
  inert = false;
}

found_it : apply_quick_filter literal_engine greeting subjects ≡ some found
unfolding apply_quick_filter material_email.QuickFilter.quick_filter_is_inert
    material_email.Prelude.is_space material_email.Regex.validate_pattern create_matcher
    material_email.QuickFilter.subject_matches text_beq material_email.Prelude.includes escape_regex
found_it = refl

abbrev cache : UnifiedFolderCache
cache = record {
  account_ids = text "acc" ∷ [];
  folders = [];
  messages = (text "acc" ++ 0 ∷ text "inbox", message ∷ message ∷ []) ∷ [];
}

listed :
    collect_cached_unified_messages ascii naturals UnifiedFolderKind.unread cache ≡ message ∷ []
unfolding collect_cached_unified_messages material_email.Prelude.sort
    material_email.UnifiedFolders.gather text_beq material_email.Mail.lookup
    material_email.Mail.insert
listed = refl

collect_cached_unified_messages-IsListed_example :
    let messages = collect_cached_unified_messages ascii naturals UnifiedFolderKind.unread cache in
    AllPairs HasOtherId messages × All (IsListed UnifiedFolderKind.unread cache) messages
collect_cached_unified_messages-IsListed_example =
    collect_cached_unified_messages-IsListed ascii naturals UnifiedFolderKind.unread cache

abbrev tabs : List TabCandidate
tabs =
    record { id = text "1"; label = text "Hello"; pinned = false }
    ∷ record { id = text "2"; label = text "Hello again"; pinned = true }
    ∷ record { id = text "3"; label = text "Other"; pinned = false }
    ∷ []

abbrev review : BulkTabCloseReview
review = record {
  search = record { mode = plain; pattern = text "Hello"; flags = [] };
  inverse = false;
  include_pinned = false;
}

abbrev matching : BulkTabCloseEvaluation
matching = record { status = ready; tab_ids = text "1" ∷ []; excluded_pinned_ids = text "2" ∷ [] }

abbrev remaining : BulkTabCloseEvaluation
remaining = record { status = ready; tab_ids = text "3" ∷ []; excluded_pinned_ids = [] }

matched : evaluate_bulk_tab_close literal_engine tabs review ≡ some matching
unfolding evaluate_bulk_tab_close material_email.Prelude.trim material_email.Prelude.is_space
    material_email.Regex.validate_pattern create_matcher material_email.Prelude.includes
    escape_regex
matched = refl

remained :
    evaluate_bulk_tab_close literal_engine tabs (record review { inverse = true }) ≡ some remaining
unfolding evaluate_bulk_tab_close material_email.Prelude.trim material_email.Prelude.is_space
    material_email.Regex.validate_pattern create_matcher material_email.Prelude.includes
    escape_regex
remained = refl

evaluate_bulk_tab_close-inverse_example :
    (matches : Text → Bool) × (create_matcher literal_engine review.search ≡ some matches)
    × IsShare (λ (c : TabCandidate). matches c.label) false tabs matching
    × IsShare (λ (c : TabCandidate). not (matches c.label)) false tabs remaining
    × Perm (text "1" ∷ text "2" ∷ text "3" ∷ []) (map tab_id tabs)
evaluate_bulk_tab_close-inverse_example =
    evaluate_bulk_tab_close-inverse literal_engine tabs review matching remaining refl matched
      remained

abbrev repeated_twice : Text
repeated_twice = text "(a+)b+b+"

repeated_twice-is_risky : has_adjacent_overlapping_quantifiers repeated_twice ≡ true
unfolding has_adjacent_overlapping_quantifiers text_beq
repeated_twice-is_risky = refl

scanners_end_example :
    Scans repeated_twice 0 none (has_adjacent_overlapping_quantifiers repeated_twice)
    × Takes repeated_twice 0 (simple_alternative_atoms repeated_twice)
scanners_end_example = scanners_end repeated_twice
