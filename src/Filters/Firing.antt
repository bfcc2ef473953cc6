-- ===== src/Filters/Firing.antt =====
-- Which filters act on a message, and in which order (src/shared/message-filters.ts).
use material_email.Prelude.{
  ◌≤◌, sort, ◌≡◌, refl, sym, ap, true, List, [], ◌∷◌, ◌++◌, map, arith, filter, take, length,
  length-sort, length-filter, take-eq_of_le, filter-sort, IsComparator, compare-IsComparator,
  key-IsComparator, then-IsComparator, if◌then◌else◌, Bool-cases, inl, inr, not_gt, Perm, sort-perm,
  sort-IsSorted, AllPairs, All-map,
}
use material_email.Runtime.{Unicode, RegExp, Numbers}
use material_email.Filters.Model.{
  FilterAction, MessageFilter, FilterSubject, filter_limit, action_limit,
}
use material_email.Filters.Collapse.{collapse_message_filter_actions}
use material_email.Filters.Evaluation.{
  before_stop, stops, outcome_of, Collected, fires, collect, compare_filters, sort_message_filters,
  evaluate_message_filters,
}

-- The filters up to the first one whose bounded actions stop, that one included.
unfoldable pub until_stop : List MessageFilter → List MessageFilter
until_stop [] = []
until_stop (f ∷ filters) =
    let rest = until_stop filters in
    if stops (take action_limit f.actions) then f ∷ [] else f ∷ rest

-- the actions of a list of filters, in order, each up to its own `stop`
unfoldable pub actions_of : List MessageFilter → List FilterAction
actions_of [] = []
actions_of (f ∷ filters) = before_stop (take action_limit f.actions) ++ actions_of filters

pub compare_filters-IsComparator : (u : Unicode) → IsComparator (compare_filters u)
compare_filters-IsComparator u =
    then-IsComparator (key-IsComparator (λ (f : MessageFilter). f.ordinal) compare-IsComparator) (
      then-IsComparator (key-IsComparator (λ (f : MessageFilter). f.name) u.comparator)
        (key-IsComparator (λ (f : MessageFilter). f.id) u.comparator))

-- A filter in front of another: its ordinal is not greater, and where the ordinals are equal, its name
-- does not come after the other's.
pub record IsBefore (u : Unicode) (f g : MessageFilter) : Type 0 where
  pub by_ordinal : f.ordinal ≤ g.ordinal
  pub by_name : f.ordinal ≡ g.ordinal → not_gt (u.locale_compare f.name g.name) ≡ true

compare_filters-IsBefore :
    (u : Unicode) (f g : MessageFilter) → not_gt (compare_filters u f g) ≡ true → IsBefore u f g
compare_filters-IsBefore u f g h = record { by_ordinal = ground arith; by_name = λ e. ground arith }

all-IsBefore :
    (u : Unicode) (filters : List MessageFilter)
    → AllPairs (λ f g. not_gt (compare_filters u f g) ≡ true) filters
    → AllPairs (IsBefore u) filters
all-IsBefore u [] h = tt
all-IsBefore u (f ∷ filters) (h, hs) = (
  All-map {Q = IsBefore u f} (λ g k. compare_filters-IsBefore u f g k) filters h,
  all-IsBefore u filters hs,
)

module _ (u : Unicode) (r : RegExp) (n : Numbers) (s : FilterSubject) (now : n.Num) where
  pub collect-eq :
      (filters : List MessageFilter)
      → collect u r n s now filters ≡ record {
        outcomes = map outcome_of (until_stop (filter (fires u r n s now) filters));
        actions = actions_of (until_stop (filter (fires u r n s now) filters));
      }
  unfolding collect until_stop actions_of
  collect-eq [] = refl
  collect-eq (f ∷ filters) = elim (Bool-cases (fires u r n s now f)) [
    | inl fired ↦ elim (Bool-cases (stops (take action_limit f.actions))) [
      | inl last ↦ rw (fired, last) (cc last)
      | inr more ↦ rw (fired, more) (cc (more, collect-eq filters))
    ]
    | inr idle ↦ rw idle (collect-eq filters)
  ]

  -- An evaluation puts all filters in the order of their ordinals, with equal ordinals in the order
  -- of their names, and takes the first `filter_limit` of them; its outcomes are those of the filters
  -- among these that fire, up to the first that stops, and its effective actions are the actions of
  -- these, each up to its own `stop`, collapsed.
  pub evaluate_message_filters-eq :
      (filters : List MessageFilter)
      → let ordered = sort_message_filters u filters in
        let acting = until_stop (filter (fires u r n s now) (take filter_limit ordered)) in
        Perm ordered filters
        × AllPairs (IsBefore u) ordered
        × ((evaluate_message_filters u r n filters s now).outcomes ≡ map outcome_of acting)
        × ((evaluate_message_filters u r n filters s now).effective
            ≡ collapse_message_filter_actions (actions_of acting))
  unfolding evaluate_message_filters sort_message_filters
  evaluate_message_filters-eq filters =
      let same = collect-eq (take filter_limit (sort_message_filters u filters)) in
      (
        sort-perm (compare_filters u) filters,
        all-IsBefore u _
            (sort-IsSorted (compare_filters u) (compare_filters-IsComparator u) filters),
        ap (λ (c : Collected). c.outcomes) same,
        ap (λ (c : Collected). collapse_message_filter_actions c.actions) same,
      )

  filter-filter_enabled :
      (filters : List MessageFilter)
      → filter (fires u r n s now) (filter (λ f. f.enabled) filters)
        ≡ filter (fires u r n s now) filters
  filter-filter_enabled [] = refl
  filter-filter_enabled (f ∷ filters) = elim (Bool-cases f.enabled) [
    | inl on ↦ rw on (ground (arith, filter-filter_enabled filters))
    | inr off ↦ rw off (filter-filter_enabled filters)
  ]

  -- Below the limit on their number, filters that are switched off make no difference.
  pub evaluate_message_filters-enabled :
      (filters : List MessageFilter)
      → length filters ≤ filter_limit
      → evaluate_message_filters u r n (filter (λ f. f.enabled) filters) s now
        ≡ evaluate_message_filters u r n filters s now
  unfolding evaluate_message_filters sort_message_filters
  evaluate_message_filters-enabled filters few =
      let on = λ (f : MessageFilter). f.enabled in
      let sorted = sort (compare_filters u) filters in
      let swapped : sort (compare_filters u) (filter on filters) ≡ filter on sorted =
        sym (filter-sort (compare_filters u) (compare_filters-IsComparator u) on filters) in
      let whole : take filter_limit sorted ≡ sorted =
        take-eq_of_le filter_limit sorted
          (omega (arith, length-sort (compare_filters u) filters)) in
      let whole_on : take filter_limit (filter on sorted) ≡ filter on sorted =
        take-eq_of_le filter_limit (filter on sorted)
          (omega (arith, length-sort (compare_filters u) filters, length-filter on sorted)) in
      rw (
        swapped,
        whole,
        whole_on,
        collect-eq (filter on sorted),
        collect-eq sorted,
        filter-filter_enabled sorted,
      )
