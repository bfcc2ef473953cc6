-- ===== src/Filters/Collapse.antt =====
-- src/shared/message-filters.ts: `collapseMessageFilterActions`.
pub mod Laws
pub mod Pairs
pub mod Decisions
use material_email.Prelude.{
  Bool, true, false, not, ◌&&◌, ◌||◌, Option, none, some, List, [], ◌∷◌, ◌++◌, filter,
  if◌then◌else◌,
}
use material_email.Prelude.Text.{Text, text_beq}
use material_email.Filters.Model.{
  ActionKind, mark_read, mark_unread, star, unstar, add_tag, remove_tag, move, archive, trash,
  mark_junk, mark_not_junk, stop, FilterAction, kind_beq,
}

-- `CONTRADICTIONS[kind]`
unfoldable pub contradiction : ActionKind → Option ActionKind
contradiction mark_read = some mark_unread
contradiction mark_unread = some mark_read
contradiction star = some unstar
contradiction unstar = some star
contradiction mark_junk = some mark_not_junk
contradiction mark_not_junk = some mark_junk
contradiction _ = none

unfoldable pub is_destination : ActionKind → Bool
is_destination move = true
is_destination archive = true
is_destination trash = true
is_destination _ = false

abbrev pub is_stop : ActionKind → Bool
is_stop stop = true
is_stop _ = false

abbrev is_add : ActionKind → Bool
is_add add_tag = true
is_add _ = false

abbrev is_remove : ActionKind → Bool
is_remove remove_tag = true
is_remove _ = false

abbrev is_opposite : Option ActionKind → ActionKind → Bool
is_opposite none kind = false
is_opposite (some opposite) kind = kind_beq kind opposite

-- the test of the inner loop: the later `action` takes `existing` out
unfoldable pub superseded : FilterAction → FilterAction → Bool
unfolding contradiction is_destination kind_beq
superseded action existing =
    let same_action = kind_beq existing.kind action.kind && text_beq existing.value action.value in
    let contradicts = is_opposite (contradiction action.kind) existing.kind in
    let destination_clash = is_destination action.kind && is_destination existing.kind in
    let tag_clash =
      (is_add action.kind && (is_remove existing.kind && text_beq existing.value action.value))
      || (is_remove action.kind
          && (is_add existing.kind && text_beq existing.value action.value)) in
    same_action || (contradicts || (destination_clash || tag_clash))

-- one round of the outer loop
unfoldable pub collapse_step : List FilterAction → FilterAction → List FilterAction
unfolding superseded
collapse_step collapsed action =
    if is_stop action.kind
    then collapsed
    else filter (λ existing. not (superseded action existing)) collapsed ++ action ∷ []

unfoldable pub collapse_from : List FilterAction → List FilterAction → List FilterAction
unfolding collapse_step
collapse_from collapsed [] = collapsed
collapse_from collapsed (action ∷ actions) = collapse_from (collapse_step collapsed action) actions

unfoldable pub collapse_message_filter_actions : List FilterAction → List FilterAction
unfolding collapse_from
collapse_message_filter_actions actions = collapse_from [] actions
