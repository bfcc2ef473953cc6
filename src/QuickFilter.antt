-- ===== src/QuickFilter.antt =====
-- src/shared/quick-filter.ts: the quick filter over the message list.
pub mod Laws
use material_email.Prelude.{
  ℕ, ◌≡◌, ◌↔◌, refl, Bool, true, false, not, ◌&&◌, ◌||◌, Option, none, some, List, [], ◌∷◌, ◌++◌,
  map, filter, any, all, contains, take, length, nat_beq, if◌then◌else◌, Eq, arith,
}
use material_email.Prelude.Text.{Text, text, text_eq, is_empty, trim, join}
use material_email.Runtime.{RegExp}
use material_email.Mail.{Address, MessageSummary}
use material_email.Regex.{
  MatchMode, plain, regex, MatcherOptions, PatternStatus, validate_pattern, create_matcher,
}

abbrev pub quick_filter_tag_limit : ℕ
quick_filter_tag_limit = 20

pub data Facet : Type 0 where
  unread starred attachments tagged : Facet

pub data Scope : Type 0 where
  sender recipients subject preview : Scope

pub data TagMatch : Type 0 where
  any_tag all_tags : TagMatch

abbrev pub facet_beq : Facet → Facet → Bool
facet_beq unread unread = true
facet_beq starred starred = true
facet_beq attachments attachments = true
facet_beq tagged tagged = true
facet_beq _ _ = false

pub facet_beq_iff : (a b : Facet) → (facet_beq a b ≡ true) ↔ (a ≡ b)
facet_beq_iff a b = ground arith

instance abbrev pub facet_eq : Eq Facet
facet_eq = record { same = facet_beq; same_iff = facet_beq_iff }

pub record QuickFilterState : Type 0 where
  pub active : Bool
  pub facets : List Facet
  pub tag_ids : List Text
  pub tag_match : TagMatch
  pub mode : MatchMode
  pub pattern : Text
  pub flags : Text
  pub case_sensitive : Bool
  pub scopes : List Scope

pub record QuickFilterSubject : Type 0 where
  pub message : MessageSummary
  pub tag_ids : List Text

pub record QuickFilterResult : Type 0 where
  pub messages : List MessageSummary
  pub total_count : ℕ
  pub matched_count : ℕ
  pub pattern_valid : Bool
  -- `none` for the empty message
  pub pattern_status : Option PatternStatus
  pub inert : Bool

unfoldable pub empty_quick_filter_state : QuickFilterState
empty_quick_filter_state = record {
  active = false;
  facets = [];
  tag_ids = [];
  tag_match = any_tag;
  mode = plain;
  pattern = [];
  flags = [];
  case_sensitive = false;
  scopes = sender ∷ subject ∷ preview ∷ [];
}

abbrev pub flags_of_mode : MatchMode → Text → Bool → Text
flags_of_mode regex flags case_sensitive = flags
flags_of_mode plain flags case_sensitive = if case_sensitive then [] else text "i"

unfoldable pub quick_filter_flags : QuickFilterState → Text
quick_filter_flags state = flags_of_mode state.mode state.flags state.case_sensitive

abbrev pub is_nil {ℓ} : {A : Type ℓ} → List A → Bool
is_nil [] = true
is_nil (x ∷ xs) = false

unfoldable pub quick_filter_is_inert : QuickFilterState → Bool
unfolding trim
quick_filter_is_inert state =
    is_nil state.facets && is_nil state.tag_ids && is_empty (trim state.pattern)

unfoldable pub address_text : List Address → Text
unfolding trim join
address_text addresses =
    join (text " ")
      (map (λ (entry : Address). trim (entry.name ++ text " " ++ entry.address)) addresses)

unfoldable pub scope_text : Scope → MessageSummary → Text
unfolding address_text
scope_text sender message = address_text message.from
scope_text recipients message = address_text message.to ++ text " " ++ address_text message.cc
scope_text subject message = message.subject
scope_text preview message = message.preview

unfoldable pub facet_matches : Facet → QuickFilterSubject → Bool
facet_matches unread s = s.message.unread
facet_matches starred s = s.message.starred
facet_matches attachments s = s.message.has_attachments
facet_matches tagged s = not (is_nil s.tag_ids)

-- whether the tags of a message satisfy the selected ones
unfoldable pub tags_match : TagMatch → List Text → List Text → Bool
tags_match any_tag selected tag_ids =
    if is_nil selected then true else not (nat_beq (length (filter (contains tag_ids) selected)) 0)
tags_match all_tags selected tag_ids =
    if is_nil selected
    then true
    else nat_beq (length (filter (contains tag_ids) selected)) (length selected)

abbrev scopes_of : List Scope → List Scope
scopes_of [] = sender ∷ recipients ∷ subject ∷ preview ∷ []
scopes_of (scope ∷ scopes) = scope ∷ scopes

abbrev pub matcher_options : QuickFilterState → MatcherOptions
matcher_options state = record {
  mode = state.mode;
  pattern = trim state.pattern;
  flags = quick_filter_flags state;
}

-- The test of the pattern in some scope; without a pattern every message passes.
abbrev pub pattern_matches : Option (Text → Bool) → List Scope → MessageSummary → Bool
pattern_matches none scopes message = true
pattern_matches (some matcher) scopes message =
    any (λ scope. matcher (scope_text scope message)) (scopes_of scopes)

unfoldable pub subject_matches : QuickFilterState → Option (Text → Bool) → QuickFilterSubject → Bool
unfolding facet_matches tags_match scope_text
subject_matches state matcher s =
    all (λ facet. facet_matches facet s) state.facets
    && tags_match state.tag_match (take quick_filter_tag_limit state.tag_ids) s.tag_ids
    && pattern_matches matcher state.scopes s.message

abbrev pub message_of : QuickFilterSubject → MessageSummary
message_of s = s.message

abbrev pub everything : Bool → List QuickFilterSubject → QuickFilterResult
everything inert subjects = record {
  messages = map message_of subjects;
  total_count = length subjects;
  matched_count = length subjects;
  pattern_valid = true;
  pattern_status = none;
  inert = inert;
}

abbrev pub nothing : PatternStatus → List QuickFilterSubject → QuickFilterResult
nothing status subjects = record {
  messages = [];
  total_count = length subjects;
  matched_count = 0;
  pattern_valid = false;
  pattern_status = some status;
  inert = false;
}

abbrev pub selected :
    QuickFilterState
    → Option PatternStatus
    → Option (Text → Bool)
    → List QuickFilterSubject
    → QuickFilterResult
selected state status matcher subjects =
    let matched = filter (subject_matches state matcher) subjects in
    record {
      messages = map message_of matched;
      total_count = length subjects;
      matched_count = length matched;
      pattern_valid = true;
      pattern_status = status;
      inert = false;
    }

abbrev pub selected_by :
    QuickFilterState
    → PatternStatus
    → Option (Text → Bool)
    → List QuickFilterSubject
    → Option QuickFilterResult
selected_by state status none subjects = none
selected_by state status (some matcher) subjects =
    some (selected state (some status) (some matcher) subjects)

-- `none` where the construction of the matcher throws.
unfoldable pub apply_quick_filter :
    RegExp → QuickFilterState → List QuickFilterSubject → Option QuickFilterResult
apply_quick_filter r state subjects =
    let validation = validate_pattern r (matcher_options state) in
    if not state.active || quick_filter_is_inert state
    then some (everything state.active subjects)
    else if is_empty (trim state.pattern)
    then some (selected state none none subjects)
    else if not validation.valid
    then some (nothing validation.status subjects)
    else selected_by state validation.status (create_matcher r (matcher_options state)) subjects

unfoldable pub toggle_quick_filter_facet : QuickFilterState → Facet → QuickFilterState
toggle_quick_filter_facet state facet = record state {
  active = true;
  facets =
      if contains state.facets facet
      then filter (λ value. not (facet_beq value facet)) state.facets
      else state.facets ++ facet ∷ [];
}

unfoldable pub toggle_quick_filter_tag : QuickFilterState → Text → QuickFilterState
toggle_quick_filter_tag state tag_id = record state {
  active = true;
  tag_ids =
      if contains state.tag_ids tag_id
      then filter (λ value. not (text_eq.same value tag_id)) state.tag_ids
      else take quick_filter_tag_limit (state.tag_ids ++ tag_id ∷ []);
}
