-- ===== src/Organization/FilterList.antt =====
-- src/main/mail-organization.ts: the stored filters and the junk model.
use material_email.Prelude.{
  ℕ, suc, max, Bool, true, false, not, Option, none, some, List, [], ◌∷◌, ◌++◌, filter, find?, any,
  length, take, leb, if◌then◌else◌,
}
use material_email.Prelude.Text.{Text, text_beq, text_eq, is_empty, trim}
use material_email.Runtime.{Unicode, RegExp, Numbers}
use material_email.Mail.{MessageSummary, Object, lookup, insert, erase}
use material_email.Filters.{
  MessageFilter, MatchAll, FilterCondition, FilterAction, filter_limit, filter_name_limit,
  condition_limit, action_limit, filter_not_found, filter_limit_reached, Result, ok, err, ◌>>◌,
  throw_if, validate_message_filter, sort_message_filters,
}
use material_email.Junk.{
  JunkModelSummary, Label, empty_junk_model, junk_model_summary, junk_sample_from_message,
  train_junk_model,
}
use material_email.Organization.State.{PersistedState, junk_model_of}

-- `input` of `upsertFilter`; an empty identifier counts as none.
pub record FilterInput : Type 0 where
  pub id : Option Text
  pub name : Text
  pub enabled : Bool
  pub match : MatchAll
  pub run_on_sync : Bool
  pub account_id : Option Text
  pub conditions : List FilterCondition
  pub actions : List FilterAction

abbrev pub has_filter_id : Text → MessageFilter → Bool
has_filter_id id f = text_beq f.id id

abbrev pub filters_or_nil : Option (List MessageFilter) → List MessageFilter
filters_or_nil none = []
filters_or_nil (some filters) = filters

-- One more than the highest ordinal, which counts as -1 where there is no filter.
unfoldable pub next_filter_ordinal : List MessageFilter → ℕ
next_filter_ordinal [] = 0
next_filter_ordinal (f ∷ filters) = max (suc f.ordinal) (next_filter_ordinal filters)

abbrev pub given_id : Option Text → Option Text
given_id none = none
given_id (some id) = if is_empty id then none else some id

abbrev pub current_of : List MessageFilter → Option Text → Option MessageFilter
current_of existing none = none
current_of existing (some id) = find? (has_filter_id id) existing

-- the two guards in front of a candidate
abbrev pub upsert_guard :
    List MessageFilter → Option Text → Option MessageFilter → Result (Unit {0})
upsert_guard existing given (some current) = ok tt
upsert_guard existing (some id) none = err filter_not_found
upsert_guard existing none none = throw_if (leb filter_limit (length existing)) filter_limit_reached

abbrev pub id_or : Option MessageFilter → Text → Text
id_or none fresh = fresh
id_or (some current) fresh = current.id

abbrev ordinal_or : Option MessageFilter → ℕ → ℕ
ordinal_or none fresh = fresh
ordinal_or (some current) fresh = current.ordinal

unfoldable pub candidate_filter :
    List MessageFilter → Option MessageFilter → FilterInput → Text → MessageFilter
unfolding next_filter_ordinal trim
candidate_filter existing current input fresh = record {
  id = id_or current fresh;
  name = take filter_name_limit (trim input.name);
  enabled = input.enabled;
  ordinal = ordinal_or current (next_filter_ordinal existing);
  match = input.match;
  run_on_sync = input.run_on_sync;
  account_id = input.account_id;
  conditions = take condition_limit input.conditions;
  actions = take action_limit input.actions;
}

-- `filters.map((filter, index) => ({ ...filter, ordinal: index }))`, from an index on
unfoldable pub renumber : ℕ → List MessageFilter → List MessageFilter
renumber index [] = []
renumber index (f ∷ filters) = record f { ordinal = index } ∷ renumber (suc index) filters

abbrev pub with_filters : PersistedState → List MessageFilter → PersistedState
with_filters draft filters = record draft { message_filters = some filters }

-- `new Map(existing.map(filter => [filter.id, filter]))`
unfoldable pub by_id : List MessageFilter → Object MessageFilter → Object MessageFilter
by_id [] found = found
by_id (f ∷ filters) found = by_id filters (insert f.id f found)

-- What the loop of `reorderFilters` keeps: the filters in their new order, and those not listed.
pub record Reordering : Type 0 where
  pub ordered : List MessageFilter
  pub rest : Object MessageFilter

abbrev pub reorder_step : Reordering → Text → Option MessageFilter → Reordering
reorder_step state id none = state
reorder_step state id (some f) =
    if any (has_filter_id id) state.ordered
    then state
    else record { ordered = state.ordered ++ f ∷ []; rest = erase id state.rest }

unfoldable pub reorder_from : Reordering → List Text → Reordering
reorder_from state [] = state
reorder_from state (id ∷ ids) = reorder_from (reorder_step state id (lookup id state.rest)) ids

abbrev is_some : Option MessageFilter → Bool
is_some none = false
is_some (some f) = true

abbrev pub is_left : Object MessageFilter → MessageFilter → Bool
is_left rest f = is_some (lookup f.id rest)

unfoldable pub reordered : List MessageFilter → List Text → List MessageFilter
unfolding by_id reorder_from
reordered existing ordered_ids =
    let state = reorder_from (record { ordered = []; rest = by_id existing [] }) ordered_ids in
    state.ordered ++ filter (is_left state.rest) existing

module _ (u : Unicode) where
  unfoldable pub list_filters : PersistedState → List MessageFilter
  unfolding sort_message_filters
  list_filters state = sort_message_filters u (filters_or_nil state.message_filters)

  -- the new state, and the filters that it lists
  abbrev listed : PersistedState → PersistedState × List MessageFilter
  listed draft = (draft, list_filters draft)

  unfoldable pub remove_filter :
      PersistedState → Text → Result (PersistedState × List MessageFilter)
  unfolding list_filters renumber
  remove_filter draft id =
      let existing = list_filters draft in
      do
        throw_if (not (any (has_filter_id id) existing)) filter_not_found
        ok (
            listed
              (with_filters draft (renumber 0 (filter (λ f. not (has_filter_id id f)) existing))))

  unfoldable pub reorder_filters : PersistedState → List Text → PersistedState × List MessageFilter
  unfolding list_filters renumber reordered
  reorder_filters draft ordered_ids =
      listed (with_filters draft (renumber 0 (reordered (list_filters draft) ordered_ids)))

  unfoldable pub train_junk :
      PersistedState → MessageSummary → Label → Option Text → PersistedState × JunkModelSummary
  unfolding train_junk_model junk_sample_from_message junk_model_summary
  train_junk draft message label body =
      let model =
        train_junk_model u (junk_model_of draft) (junk_sample_from_message message body) label in
      (record draft { junk_model = some model }, junk_model_summary model)

unfoldable pub reset_junk : PersistedState → PersistedState × JunkModelSummary
unfolding junk_model_summary
reset_junk draft =
    (record draft { junk_model = some empty_junk_model }, junk_model_summary empty_junk_model)

module _ (u : Unicode) (r : RegExp) (n : Numbers) where
  -- `fresh` is the identifier that `randomUUID` gives.
  unfoldable pub upsert_filter :
      PersistedState → FilterInput → Text → Result (PersistedState × List MessageFilter)
  unfolding list_filters candidate_filter validate_message_filter sort_message_filters
  upsert_filter draft input fresh =
      let existing = list_filters u draft in
      let given = given_id input.id in
      let current = current_of existing given in
      let candidate = candidate_filter existing current input fresh in
      do
        upsert_guard existing given current
        validate_message_filter r n candidate
        ok (
            listed u (
              with_filters draft (
                sort_message_filters u
                  (filter (λ f. not (has_filter_id candidate.id f)) existing ++ candidate ∷ []))))
