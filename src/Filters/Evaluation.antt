-- ===== src/Filters/Evaluation.antt =====
-- src/shared/message-filters.ts: the evaluation of filters on a message, and the plan of a run.
use material_email.Prelude.{
  ℕ, Bool, true, false, ◌&&◌, List, [], ◌∷◌, ◌++◌, any, filter, take, length, ltb, compare, sort,
  then_compare, Ordering, if◌then◌else◌,
}
use material_email.Runtime.{Unicode, RegExp, Numbers}
use material_email.Filters.Model.{
  FilterAction, MessageFilter, FilterSubject, FilterOutcome, FilterEvaluation, filter_limit,
  action_limit, run_limit,
}
use material_email.Filters.Conditions.{message_filter_matches}
use material_email.Filters.Collapse.{is_stop, collapse_message_filter_actions}

-- the actions in front of the first `stop`
unfoldable pub before_stop : List FilterAction → List FilterAction
before_stop [] = []
before_stop (action ∷ actions) =
    let rest = before_stop actions in if is_stop action.kind then [] else action ∷ rest

unfoldable pub stops : List FilterAction → Bool
stops actions = any (λ action. is_stop action.kind) actions

abbrev pub outcome_of : MessageFilter → FilterOutcome
outcome_of f =
    let actions = take action_limit f.actions in
    record { filter_id = f.id; filter_name = f.name; actions = actions; stopped = stops actions }

-- What the loop of `evaluateMessageFilters` has put together.
pub record Collected : Type 0 where
  pub outcomes : List FilterOutcome
  pub actions : List FilterAction

abbrev pub nothing : Collected
nothing = record { outcomes = []; actions = [] }

-- one filter that fires, in front of what the later ones add
abbrev pub fire : MessageFilter → Collected → Collected
fire f later =
    let actions = take action_limit f.actions in
    let rest = if stops actions then nothing else later in
    record {
      outcomes = outcome_of f ∷ rest.outcomes;
      actions = before_stop actions ++ rest.actions;
    }

abbrev pub has_some {ℓ} : {A : Type ℓ} → List A → Bool
has_some [] = false
has_some (x ∷ xs) = true

pub record RunEntry : Type 0 where
  pub subject : FilterSubject
  pub evaluation : FilterEvaluation

pub record RunPlan : Type 0 where
  pub entries : List RunEntry
  pub considered_count : ℕ
  pub matched_count : ℕ
  pub limit_reached : Bool

module _ (u : Unicode) where
  abbrev pub compare_filters : MessageFilter → MessageFilter → Ordering
  compare_filters left right =
      then_compare (compare left.ordinal right.ordinal)
        (then_compare (u.locale_compare left.name right.name) (u.locale_compare left.id right.id))

  unfoldable pub sort_message_filters : List MessageFilter → List MessageFilter
  sort_message_filters filters = sort compare_filters filters

module _ (u : Unicode) (r : RegExp) (n : Numbers) where
  abbrev pub fires : FilterSubject → n.Num → MessageFilter → Bool
  fires s now f = f.enabled && message_filter_matches u r n f s now

  unfoldable pub collect : FilterSubject → n.Num → List MessageFilter → Collected
  unfolding before_stop stops
  collect s now [] = nothing
  collect s now (f ∷ filters) =
      let later = collect s now filters in if fires s now f then fire f later else later

  unfoldable pub evaluate_message_filters :
      List MessageFilter → FilterSubject → n.Num → FilterEvaluation
  unfolding sort_message_filters collect
  evaluate_message_filters filters s now =
      let collected = collect s now (take filter_limit (sort_message_filters u filters)) in
      record {
        matched = has_some collected.outcomes;
        outcomes = collected.outcomes;
        effective = collapse_message_filter_actions collected.actions;
      }

  abbrev pub planned : List MessageFilter → n.Num → FilterSubject → Bool
  planned applicable now s =
      let evaluation = evaluate_message_filters applicable s now in
      evaluation.matched && has_some evaluation.effective

  -- the loop of `planMessageFilterRun`
  unfoldable pub plan_entries : List MessageFilter → n.Num → List FilterSubject → List RunEntry
  plan_entries applicable now [] = []
  plan_entries applicable now (s ∷ subjects) =
      let rest = plan_entries applicable now subjects in
      if planned applicable now s
      then record { subject = s; evaluation = evaluate_message_filters applicable s now } ∷ rest
      else rest

  unfoldable pub plan_message_filter_run :
      List MessageFilter → List FilterSubject → n.Num → Bool → RunPlan
  unfolding plan_entries
  plan_message_filter_run filters subjects now run_on_sync_only =
      let applicable = filter (λ f. if run_on_sync_only then f.run_on_sync else true) filters in
      let bounded = take run_limit subjects in
      let entries = plan_entries applicable now bounded in
      record {
        entries = entries;
        considered_count = length bounded;
        matched_count = length entries;
        limit_reached = ltb run_limit (length subjects);
      }
