-- ===== src/Organization/Runs.antt =====
-- src/main/mail-organization.ts: the runs of the stored filters over the cached messages.
use material_email.Prelude.{
  ℕ, Bool, true, Option, none, some, List, [], ◌∷◌, map, filter, find?, length, take, ltb, contains,
  if◌then◌else◌,
}
use material_email.Prelude.Text.{Text, text_beq, text_eq, is_empty}
use material_email.Runtime.{Unicode, RegExp, Numbers}
use material_email.Mail.{Address, MessageSummary, FolderSummary, lookup}
use material_email.Filters.{
  FilterAction, FilterSubject, FilterOutcome, RunEntry, RunPlan, plan_message_filter_run,
}
use material_email.Organization.State.{PersistedState, cached_messages, tag_ids_for_message}
use material_email.Organization.FilterList.{list_filters}

pub record RunContext : Type 0 where
  pub account_id : Text
  pub folder_path : Text
  pub account_email : Text
  pub folders : List FolderSummary

abbrev name_or : Option FolderSummary → Text → Text
name_or none path = path
name_or (some folder) path = folder.name

abbrev is_wanted : Option (List Text) → Text → Bool
is_wanted none id = true
is_wanted (some ids) id = contains ids id

abbrev nonempty : Option Text → Option Text
nonempty none = none
nonempty (some t) = if is_empty t then none else some t

abbrev subject_of : PersistedState → RunContext → Text → MessageSummary → FilterSubject
subject_of state context folder_name message = record {
  message = message;
  account_email = context.account_email;
  folder_name = folder_name;
  tag_ids = tag_ids_for_message state message;
  body = nonempty (lookup message.id state.details);
}

unfoldable pub build_filter_subjects :
    PersistedState → RunContext → Option (List Text) → List FilterSubject
unfolding cached_messages tag_ids_for_message
build_filter_subjects state context message_ids =
    let folder_name =
      name_or
        (find? (λ (folder : FolderSummary). text_beq folder.path context.folder_path)
          context.folders)
        context.folder_path in
    map (subject_of state context folder_name) (
      filter (λ (message : MessageSummary). is_wanted message_ids message.id)
        (cached_messages state (some context.account_id) (some context.folder_path)))

abbrev pub preview_entry_limit : ℕ
preview_entry_limit = 200

pub record EntrySummary : Type 0 where
  pub message_id : Text
  pub subject : Text
  pub sender : Text
  pub filter_names : List Text
  pub actions : List FilterAction

pub record RunSummary : Type 0 where
  pub applied : Bool
  pub account_id : Text
  pub folder_path : Text
  pub considered_count : ℕ
  pub matched_count : ℕ
  pub applied_count : ℕ
  pub limit_reached : Bool
  pub entries : List EntrySummary
  pub entries_truncated : Bool
  pub failures : List Text

abbrev first_address : List Address → Text
first_address [] = []
first_address (entry ∷ entries) = entry.address

abbrev summary_of : RunEntry → EntrySummary
summary_of entry = record {
  message_id = entry.subject.message.id;
  subject = entry.subject.message.subject;
  sender = first_address entry.subject.message.from;
  filter_names = map (λ (o : FilterOutcome). o.filter_name) entry.evaluation.outcomes;
  actions = entry.evaluation.effective;
}

unfoldable pub summarize_filter_plan : RunPlan → RunContext → Bool → ℕ → List Text → RunSummary
summarize_filter_plan plan context applied applied_count failures = record {
  applied = applied;
  account_id = context.account_id;
  folder_path = context.folder_path;
  considered_count = plan.considered_count;
  matched_count = plan.matched_count;
  applied_count = applied_count;
  limit_reached = plan.limit_reached;
  entries = map summary_of (take preview_entry_limit plan.entries);
  entries_truncated = ltb preview_entry_limit (length plan.entries);
  failures = failures;
}

module _ (u : Unicode) (r : RegExp) (n : Numbers) where
  unfoldable pub plan_filter_run :
      PersistedState → RunContext → Bool → n.Num → Option (List Text) → RunPlan
  unfolding list_filters build_filter_subjects plan_message_filter_run
  plan_filter_run state context run_on_sync_only now message_ids =
      plan_message_filter_run u r n (list_filters u state)
        (build_filter_subjects state context message_ids) now run_on_sync_only
