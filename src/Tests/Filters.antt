-- ===== src/Tests/Filters.antt =====
-- Filters, the junk model and the stored filters: the theorems at small values.
use material_email.Prelude.{
  AllPairs, ◌⊎◌, ℕ, suc, ◌≡◌, ◌≢◌, ◌<◌, Bool, true, false, Option, none, some, List, [], ◌∷◌, ◌++◌,
  map, filter, take, arith, any, contains, Perm, ◌+◌,
}
use material_email.Prelude.Text.{Text, text, text_eq}
use material_email.Mail.{Address, MessageSummary, FolderSummary, FolderRole}
use material_email.Filters.{
  FilterAction, MessageFilter, MatchAll, FilterSubject, collapse_message_filter_actions,
  filter_limit, evaluate_message_filters, sort_message_filters,
}
use material_email.Filters.Model.{mark_read, mark_unread, add_tag, move, archive}
use material_email.Filters.Evaluation.{fires, outcome_of}
use material_email.Filters.Effects.{apply_actions, no_effect}
use material_email.Filters.Applied.{marks_junk, apply_actions-collapse}
use material_email.Filters.Firing.{IsBefore, until_stop, actions_of, evaluate_message_filters-eq}
use material_email.Junk.{
  max_safe_integer, TrainingSample, junk, empty_junk_model, train_junk_model, untrain_junk_model,
}
use material_email.Junk.Counts.{counts_at}
use material_email.Junk.Training.{untrain-train}
use material_email.Organization.State.{PersistedState}
use material_email.Tests.Data.{ascii, literal_engine, naturals, message}

abbrev contrary : List FilterAction
contrary =
    record { kind = mark_read; value = [] }
    ∷ record { kind = add_tag; value = text "work" }
    ∷ record { kind = mark_unread; value = [] }
    ∷ []

abbrev archive_folder : FolderSummary
archive_folder = record {
  account_id = text "acc";
  path = text "Archive";
  name = text "Archive";
  role = FolderRole.archive;
  unread = 0;
  total = 0;
  uid_validity = none;
}

abbrev deeds : List FilterAction
deeds =
    record { kind = archive; value = [] } ∷ record { kind = move; value = text "Later" } ∷ contrary

apply_actions-collapse_example :
    let folders = archive_folder ∷ [] in
    let collapsed = apply_actions folders (no_effect []) (collapse_message_filter_actions deeds) in
    let whole = apply_actions folders (no_effect []) deeds in
    (collapsed.unread ≡ whole.unread)
    × (collapsed.starred ≡ whole.starred)
    × (collapsed.junk_label ≡ whole.junk_label)
    × (contains collapsed.tag_ids (text "work") ≡ contains whole.tag_ids (text "work"))
    × ((any marks_junk deeds ≡ true) ⊎ (collapsed.destination ≡ whole.destination))
apply_actions-collapse_example =
    apply_actions-collapse (archive_folder ∷ []) (no_effect []) deeds (text "work")

abbrev filter_at : Text → ℕ → Bool → MessageFilter
filter_at id ordinal enabled = record {
  id = id;
  name = id;
  enabled = enabled;
  ordinal = ordinal;
  match = MatchAll.match_all;
  run_on_sync = true;
  account_id = none;
  conditions = [];
  actions = contrary;
}

abbrev two : List MessageFilter
two = filter_at (text "a") 0 true ∷ filter_at (text "b") 1 false ∷ []

abbrev subject : FilterSubject
subject = record {
  message = message;
  account_email = text "me@example.org";
  folder_name = text "Inbox";
  tag_ids = [];
  body = none;
}

evaluate_message_filters-eq_example :
    let ordered = sort_message_filters ascii two in
    let acting =
      until_stop
        (filter (fires ascii literal_engine naturals subject 20) (take filter_limit ordered)) in
    Perm ordered two
    × AllPairs (IsBefore ascii) ordered
    × ((evaluate_message_filters ascii literal_engine naturals two subject 20).outcomes
        ≡ map outcome_of acting)
    × ((evaluate_message_filters ascii literal_engine naturals two subject 20).effective
        ≡ collapse_message_filter_actions (actions_of acting))
evaluate_message_filters-eq_example =
    evaluate_message_filters-eq ascii literal_engine naturals subject 20 two

abbrev sample : TrainingSample
sample = record { subject = text "Hello there"; from = []; body = [] }

small_counts :
    (j : Text)
    → ((counts_at [] j).junk < max_safe_integer) × ((counts_at [] j).good < max_safe_integer)
unfolding material_email.Mail.lookup
small_counts j = (omega arith, omega arith)

untrain-train_example :
    let after =
      untrain_junk_model ascii (train_junk_model ascii empty_junk_model sample junk) sample junk in
    (after.junk_message_count ≡ 0)
    × (after.good_message_count ≡ 0)
    × ((j : Text) → counts_at after.tokens j ≡ counts_at [] j)
untrain-train_example = untrain-train ascii empty_junk_model sample junk (omega arith) small_counts

abbrev stored : PersistedState
stored = record {
  message_tags = none;
  message_filters = some two;
  junk_model = none;
  messages = [];
  details = [];
}

abbrev left : List MessageFilter
left = record (filter_at (text "b") 1 false) { ordinal = 0 } ∷ []

abbrev left_stored : PersistedState
left_stored = record stored { message_filters = some left }
