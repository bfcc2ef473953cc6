-- ===== src/Organization/State.antt =====
-- src/main/mail-organization.ts: the part of the stored state that the organization of mail reads
-- and writes, and the tags of the cached messages.
use material_email.Prelude.{
  ℕ, Bool, true, false, not, ◌&&◌, Option, none, some, List, [], ◌∷◌, ◌++◌, find?, nat_beq,
  if◌then◌else◌,
}
use material_email.Prelude.Text.{Text, text_beq, is_empty}
use material_email.Runtime.{Unicode}
use material_email.Mail.{MessageSummary, Object, lookup, insert}
use material_email.Tags.{
  MessageTag, MessageTagState, empty_message_tag_state, TagPatch, sort_message_tags,
  create_message_tag, update_message_tag, delete_message_tag, set_message_tags, retag_moved_message,
  forget_message_tags, message_tag_usage_counts, message_tag_key, message_tag_key_for,
  message_tag_key_account_id, message_tag_key_folder_path, or_nil, has_id,
}
use material_email.Tags.{Result, ok, ◌>>=◌}
use material_email.Filters.{MessageFilter}
use material_email.Junk.{JunkModel, empty_junk_model}

-- A state of an older version may lack the tags, the filters or the junk model.
pub record PersistedState : Type 0 where
  pub message_tags : Option MessageTagState
  pub message_filters : Option (List MessageFilter)
  pub junk_model : Option JunkModel
  pub messages : Object (List MessageSummary)
  -- the texts of the message details
  pub details : Object Text

pub record MessageTagCatalog : Type 0 where
  pub tags : List MessageTag
  pub usage : Object ℕ

abbrev tags_or_empty : Option MessageTagState → MessageTagState
tags_or_empty none = empty_message_tag_state
tags_or_empty (some tags) = tags

abbrev pub message_tag_state_of : PersistedState → MessageTagState
message_tag_state_of state = tags_or_empty state.message_tags

abbrev model_or_empty : Option JunkModel → JunkModel
model_or_empty none = empty_junk_model
model_or_empty (some model) = model

abbrev pub junk_model_of : PersistedState → JunkModel
junk_model_of state = model_or_empty state.junk_model

abbrev extend_head : ℕ → Option (Text × Text) → Option (Text × Text)
extend_head c none = none
extend_head c (some (before, after)) = some (c ∷ before, after)

-- the parts of a collection's key around its first separator
unfoldable pub cut : Text → Option (Text × Text)
cut [] = none
cut (c ∷ s) = let rest = extend_head c (cut s) in if nat_beq c 0 then some ([], s) else rest

-- `wanted` is `undefined` or the value
abbrev agrees : Option Text → Text → Bool
agrees none value = true
agrees (some wanted) value = text_beq value wanted

abbrev is_collection_of : Option Text → Option Text → Option (Text × Text) → Bool
is_collection_of account folder none = false
is_collection_of account folder (some (key_account, key_folder)) =
    not (is_empty key_account) && agrees account key_account && agrees folder key_folder

abbrev rows_of : Option Text → Option Text → Object (List MessageSummary) → List MessageSummary
rows_of account folder [] = []
rows_of account folder ((key, messages) ∷ collections) =
    let rest = rows_of account folder collections in
    if is_collection_of account folder (cut key) then messages ++ rest else rest

unfoldable pub cached_messages : PersistedState → Option Text → Option Text → List MessageSummary
unfolding cut
cached_messages state account folder = rows_of account folder state.messages

unfoldable pub tag_ids_for_message : PersistedState → MessageSummary → List Text
unfolding message_tag_key_for
tag_ids_for_message state message =
    or_nil (lookup (message_tag_key_for message) (message_tag_state_of state).assignments)

abbrev has_some : List Text → Bool
has_some [] = false
has_some (x ∷ xs) = true

abbrev assignment_map :
    PersistedState → List MessageSummary → Object (List Text) → Object (List Text)
assignment_map state [] found = found
assignment_map state (message ∷ messages) found =
    let applied = tag_ids_for_message state message in
    assignment_map state messages
      (if has_some applied then insert message.id applied found else found)

unfoldable pub tag_assignment_map_of : PersistedState → Object (List Text)
unfolding cached_messages tag_ids_for_message
tag_assignment_map_of state = assignment_map state (cached_messages state none none) []

abbrev pub with_tags : PersistedState → MessageTagState → PersistedState
with_tags draft tags = record draft { message_tags = some tags }

-- What identifies a message to the tags.
pub record MessagePlace : Type 0 where
  pub account_id : Text
  pub folder_path : Text
  pub uid : ℕ
  pub uid_validity : Option Text

abbrev pub place_key : MessagePlace → Text
place_key message =
    message_tag_key message.account_id message.folder_path message.uid message.uid_validity

-- The place that a move reports, where the server names the new message.
pub record Destination : Type 0 where
  pub folder_path : Text
  pub uid : Option ℕ
  pub uid_validity : Option Text

abbrev destination_key : Text → Text → Option Text → Option ℕ → Option Text
destination_key account folder validity none = none
destination_key account folder validity (some uid) =
    some (message_tag_key account folder uid validity)

abbrev pub moved_key : MessagePlace → Option Destination → Option Text
moved_key from none = none
moved_key from (some to) = destination_key from.account_id to.folder_path to.uid_validity to.uid

unfoldable pub carry_tags_through_move :
    PersistedState → MessagePlace → Option Destination → PersistedState
carry_tags_through_move draft from to =
    with_tags draft
      (retag_moved_message (message_tag_state_of draft) (place_key from) (moved_key from to))

abbrev same_text : Option Text → Text → Bool
same_text none value = false
same_text (some t) value = text_beq t value

unfoldable pub forget_account_tags : PersistedState → Text → PersistedState
unfolding forget_message_tags
forget_account_tags draft account_id = with_tags draft (
    forget_message_tags (message_tag_state_of draft)
      (λ key. same_text (message_tag_key_account_id key) account_id))

unfoldable pub forget_folder_tags : PersistedState → Text → Text → PersistedState
unfolding forget_message_tags
forget_folder_tags draft account_id folder_path = with_tags draft (
    forget_message_tags (message_tag_state_of draft) (λ key.
      same_text (message_tag_key_account_id key) account_id
      && same_text (message_tag_key_folder_path key) folder_path))

abbrev name_of_found : Option MessageTag → List Text
name_of_found none = []
name_of_found (some tag) = if is_empty tag.name then [] else tag.name ∷ []

-- the names of tags, without those that are missing or empty
unfoldable pub tag_names : List MessageTag → List Text → List Text
tag_names catalog [] = []
tag_names catalog (id ∷ ids) = name_of_found (find? (has_id id) catalog) ++ tag_names catalog ids

module _ (u : Unicode) where
  unfoldable pub tag_catalog_of : PersistedState → MessageTagCatalog
  tag_catalog_of state =
      let tags = message_tag_state_of state in
      record { tags = sort_message_tags u tags.catalog; usage = message_tag_usage_counts tags }

  abbrev committed : PersistedState → MessageTagState → PersistedState × MessageTagCatalog
  committed draft tags = let next = with_tags draft tags in (next, tag_catalog_of next)

  unfoldable pub add_message_tag :
      PersistedState → Text → Text → Result (PersistedState × MessageTagCatalog)
  add_message_tag draft name colour =
      let current = message_tag_state_of draft in
      do
        tag ← create_message_tag u current.catalog name colour
        ok (
            committed draft
              (record current { catalog = sort_message_tags u (current.catalog ++ tag ∷ []) }))

  unfoldable pub edit_message_tag :
      PersistedState → Text → TagPatch → Result (PersistedState × MessageTagCatalog)
  edit_message_tag draft id patch =
      let current = message_tag_state_of draft in
      do
        catalog ← update_message_tag u current.catalog id patch
        ok (committed draft (record current { catalog = catalog }))

  unfoldable pub remove_message_tag :
      PersistedState → Text → Result (PersistedState × MessageTagCatalog)
  remove_message_tag draft id = do
    tags ← delete_message_tag (message_tag_state_of draft) id
    ok (committed draft tags)

  unfoldable pub apply_message_tags :
      PersistedState → MessagePlace → List Text → PersistedState × List Text
  apply_message_tags draft message tag_ids =
      let next = set_message_tags u (message_tag_state_of draft) (place_key message) tag_ids in
      (with_tags draft next, or_nil (lookup (place_key message) next.assignments))

  unfoldable pub preview_message_tag_names : PersistedState → MessagePlace → List Text → List Text
  preview_message_tag_names state message tag_ids =
      let current = message_tag_state_of state in
      let next = set_message_tags u current (place_key message) tag_ids in
      tag_names current.catalog (or_nil (lookup (place_key message) next.assignments))
