-- ===== src/Filters/Effects.antt =====
-- src/main/app-service.ts: what `#applyFilterPlan` gathers from the effective actions on a message,
-- before it writes.
use material_email.Prelude.{
  Bool, true, false, not, ◌||◌, Option, none, some, List, [], ◌∷◌, ◌++◌, filter, find?, contains,
  unique, if◌then◌else◌,
}
use material_email.Prelude.Text.{Text, text_eq, text_beq}
use material_email.Mail.{FolderRole, FolderSummary}
use material_email.Junk.{Label, junk, good}
use material_email.Filters.Model.{
  ActionKind, mark_read, mark_unread, star, unstar, add_tag, remove_tag, move, archive, trash,
  mark_junk, mark_not_junk, stop, FilterAction,
}

pub record FilterEffect : Type 0 where
  pub destination : Option Text
  pub junk_label : Option Label
  pub unread : Option Bool
  pub starred : Option Bool
  pub tag_ids : List Text
  pub tags_changed : Bool

-- where the loop starts, with the tags of the message as a set
abbrev pub no_effect : List Text → FilterEffect
no_effect tag_ids = record {
  destination = none;
  junk_label = none;
  unread = none;
  starred = none;
  tag_ids = unique tag_ids;
  tags_changed = false;
}

abbrev is_archive : FolderSummary → Bool
is_archive folder = elim folder.role [ FolderRole.archive ↦ true | _ ↦ false ]

abbrev is_trash : FolderSummary → Bool
is_trash folder = elim folder.role [ FolderRole.trash ↦ true | _ ↦ false ]

abbrev is_junk : FolderSummary → Bool
is_junk folder = elim folder.role [ FolderRole.junk ↦ true | _ ↦ false ]

abbrev path_of : Option FolderSummary → Option Text
path_of none = none
path_of (some folder) = some folder.path

-- `roleFolder`, by the test for the role
abbrev pub role_folder : (FolderSummary → Bool) → List FolderSummary → Option Text
role_folder has_role folders = path_of (find? has_role folders)

-- `destination ?? fallback`
abbrev or_else : Option Text → Option Text → Option Text
or_else none fallback = fallback
or_else (some path) fallback = some path

-- `Set.add` and `Set.delete`
abbrev pub with_tag : Text → List Text → List Text
with_tag id tag_ids = if contains tag_ids id then tag_ids else tag_ids ++ id ∷ []

abbrev pub without_tag_id : Text → List Text → List Text
without_tag_id id tag_ids = filter (λ tag. not (text_beq tag id)) tag_ids

abbrev pub apply_kind : List FolderSummary → FilterEffect → Text → ActionKind → FilterEffect
apply_kind folders e value mark_read = record e { unread = some false }
apply_kind folders e value mark_unread = record e { unread = some true }
apply_kind folders e value star = record e { starred = some true }
apply_kind folders e value unstar = record e { starred = some false }
apply_kind folders e value add_tag = record e {
  tag_ids = with_tag value e.tag_ids;
  tags_changed = not (contains e.tag_ids value) || e.tags_changed;
}
apply_kind folders e value remove_tag = record e {
  tag_ids = without_tag_id value e.tag_ids;
  tags_changed = contains e.tag_ids value || e.tags_changed;
}
apply_kind folders e value move = record e { destination = some value }
apply_kind folders e value archive = record e { destination = role_folder is_archive folders }
apply_kind folders e value trash = record e { destination = role_folder is_trash folders }
apply_kind folders e value mark_junk = record e {
  junk_label = some junk;
  destination = or_else e.destination (role_folder is_junk folders);
}
apply_kind folders e value mark_not_junk = record e { junk_label = some good }
apply_kind folders e value stop = e

-- the loop over the effective actions of one message
unfoldable pub apply_actions : List FolderSummary → FilterEffect → List FilterAction → FilterEffect
apply_actions folders e [] = e
apply_actions folders e (action ∷ actions) =
    apply_actions folders (apply_kind folders e action.value action.kind) actions
