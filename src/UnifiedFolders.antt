-- ===== src/UnifiedFolders.antt =====
-- src/shared/unified-folders.ts: the folders that gather the cached messages of all accounts.
pub mod Keys
pub mod Laws
use material_email.Prelude.{
  ℕ, Bool, true, false, not, ◌&&◌, ◌||◌, Option, none, some, List, [], ◌∷◌, ◌++◌, map, filter, any,
  contains, length, min, get_elem?, sort, then_compare, Ordering, if◌then◌else◌, ◌-◌,
}
use material_email.Prelude.Text.{Text, text_eq, text_beq, is_empty}
use material_email.Runtime.{Unicode, Numbers}
use material_email.Mail.{MessageSummary, FolderSummary, FolderRole, Object, lookup, insert}
use material_email.Organization.State.{cut}

pub data UnifiedFolderKind : Type 0 where
  inbox starred unread : UnifiedFolderKind

pub record UnifiedFolderCache : Type 0 where
  pub account_ids : List Text
  pub folders : Object (List FolderSummary)
  pub messages : Object (List MessageSummary)

abbrev pub nonempty_parts : Option (Text × Text) → Option (Text × Text)
nonempty_parts none = none
nonempty_parts (some (account, path)) =
    if is_empty account || is_empty path then none else some (account, path)

unfoldable pub cache_key_parts : Text → Option (Text × Text)
unfolding cut
cache_key_parts key = nonempty_parts (cut key)

abbrev pub folders_or_nil : Option (List FolderSummary) → List FolderSummary
folders_or_nil none = []
folders_or_nil (some folders) = folders

abbrev pub is_inbox_role : FolderRole → Bool
is_inbox_role FolderRole.inbox = true
is_inbox_role _ = false

-- the keys of the inboxes of some accounts
unfoldable pub inbox_collections : Object (List FolderSummary) → List Text → List Text
inbox_collections folders [] = []
inbox_collections folders (account ∷ accounts) =
    map (λ (candidate : FolderSummary). account ++ 0 ∷ candidate.path)
      (filter (λ (candidate : FolderSummary). is_inbox_role candidate.role)
        (folders_or_nil (lookup account folders)))
    ++ inbox_collections folders accounts

-- the tests of a message by the folder
abbrev pub kind_accepts : UnifiedFolderKind → MessageSummary → Bool
kind_accepts inbox message = true
kind_accepts starred message = message.starred
kind_accepts unread message = message.unread

-- the test of a collection by the folder
abbrev pub kind_reads : UnifiedFolderKind → List Text → Text → Bool
kind_reads inbox inboxes key = contains inboxes key
kind_reads starred inboxes key = true
kind_reads unread inboxes key = true

abbrev pub accepts_message : UnifiedFolderKind → Text → Text → MessageSummary → Bool
accepts_message folder account path message =
    text_beq message.account_id account
    && text_beq message.folder_path path
    && kind_accepts folder message

-- `if (!unique.has(message.id)) unique.set(message.id, message)`
abbrev pub set_if_absent :
    Option MessageSummary → MessageSummary → Object MessageSummary → Object MessageSummary
set_if_absent none message found = insert message.id message found
set_if_absent (some earlier) message found = found

unfoldable pub gather_messages :
    UnifiedFolderKind
    → Text
    → Text
    → List MessageSummary
    → Object MessageSummary
    → Object MessageSummary
gather_messages folder account path [] found = found
gather_messages folder account path (message ∷ messages) found =
    gather_messages folder account path messages (
      if accepts_message folder account path message
      then set_if_absent (lookup message.id found) message found
      else found)

-- one collection, by the parts of its key
abbrev pub gather_collection :
    UnifiedFolderKind
    → List Text
    → List Text
    → Text
    → Option (Text × Text)
    → List MessageSummary
    → Object MessageSummary
    → Object MessageSummary
gather_collection folder accounts inboxes key none messages found = found
gather_collection folder accounts inboxes key (some (account, path)) messages found =
    if contains accounts account && kind_reads folder inboxes key
    then gather_messages folder account path messages found
    else found

unfoldable pub gather :
    UnifiedFolderKind
    → List Text
    → List Text
    → Object (List MessageSummary)
    → Object MessageSummary
    → Object MessageSummary
unfolding cache_key_parts gather_messages
gather folder accounts inboxes [] found = found
gather folder accounts inboxes ((key, messages) ∷ collections) found =
    gather folder accounts inboxes collections
      (gather_collection folder accounts inboxes key (cache_key_parts key) messages found)

-- The messages of an entry and their places in the list.
abbrev pub value_of : Text × MessageSummary → MessageSummary
value_of entry = entry.1

module _ (u : Unicode) (n : Numbers) where
  -- `none` for negative infinity
  unfoldable pub message_date : MessageSummary → Option n.Num
  message_date message =
      let parsed = n.date_parse message.date in if n.is_finite parsed then some parsed else none

  -- the sign of `right - left`; it is NaN, which counts as no difference, where both are infinite
  abbrev pub date_difference : Option n.Num → Option n.Num → Ordering
  date_difference none none = Ordering.eq
  date_difference none (some right) = Ordering.gt
  date_difference (some left) none = Ordering.lt
  date_difference (some left) (some right) =
      if n.less left right
      then Ordering.gt
      else if n.less right left
      then Ordering.lt
      else Ordering.eq

  unfoldable pub compare_by_date : MessageSummary → MessageSummary → Ordering
  unfolding message_date
  compare_by_date left right =
      then_compare (date_difference (message_date left) (message_date right))
        (u.locale_compare left.id right.id)

  abbrev pub sorted_collections : Object (List MessageSummary) → Object (List MessageSummary)
  sorted_collections =
      sort (λ (left right : Text × List MessageSummary). u.locale_compare left.0 right.0)

  unfoldable pub collect_cached_unified_messages :
      UnifiedFolderKind → UnifiedFolderCache → List MessageSummary
  collect_cached_unified_messages folder cache = sort compare_by_date (
      map value_of (
        gather folder cache.account_ids (inbox_collections cache.folders cache.account_ids)
          (sorted_collections cache.messages) []))

abbrev pub has_message_id : Text → MessageSummary → Bool
has_message_id id message = text_beq message.id id

abbrev pub id_at : Option MessageSummary → Option Text
id_at none = none
id_at (some message) = some message.id

abbrev pub is_shown : List MessageSummary → Option Text → Bool
is_shown messages none = false
is_shown messages (some id) = not (is_empty id) && any (has_message_id id) messages

-- The index is a natural number, as that of a message in a list is.
unfoldable pub select_stable_message_id : List MessageSummary → Option Text → ℕ → Option Text
select_stable_message_id [] previous index = none
select_stable_message_id (message ∷ messages) previous index =
    if is_shown (message ∷ messages) previous
    then previous
    else id_at (get_elem? (message ∷ messages) (min index (length (message ∷ messages) - 1)))
