-- ===== src/Tags/Assignments.antt =====
-- src/shared/message-tags.ts: which tags a message carries, keyed by its storage key.
use material_email.Prelude.{
  ℕ, ◌+◌, ◌-◌, Bool, true, false, not, ◌&&◌, Option, none, some, List, [], ◌∷◌, ◌++◌, map, leb,
  if◌then◌else◌, length, take, drop, filter, any, find?, contains, unique,
}
use material_email.Prelude.Text.{Text, text_beq, text_eq, is_empty}
use material_email.Runtime.{Unicode}
use material_email.Mail.{Object, lookup, insert, erase}
use material_email.Tags.Names.{
  MessageTag, built_in_message_tags, tags_per_message_limit, assignment_limit,
}
use material_email.Tags.Catalog.{
  Result, ok, ◌>>=◌, ◌>>◌, throw_if, tag_not_found, tag_built_in, found_tag, has_id,
  sort_message_tags,
}

pub record MessageTagState : Type 0 where
  pub catalog : List MessageTag
  pub assignments : Object (List Text)

abbrev pub empty_message_tag_state : MessageTagState
empty_message_tag_state = record { catalog = built_in_message_tags; assignments = [] }

-- The last `assignment_limit` entries stay.
unfoldable pub bound_assignments : Object (List Text) → Object (List Text)
bound_assignments assignments =
    if leb (length assignments) assignment_limit
    then assignments
    else drop (length assignments - assignment_limit) assignments

abbrev pub is_nil : List Text → Bool
is_nil [] = true
is_nil (x ∷ xs) = false

-- the entries of the other tags, without those that the deleted tag leaves empty
unfoldable pub without_tag : Text → Object (List Text) → Object (List Text)
without_tag id [] = []
without_tag id ((k, ids) ∷ entries) =
    let remaining = filter (λ value. not (text_beq value id)) ids in
    if is_nil remaining then without_tag id entries else (k, remaining) ∷ without_tag id entries

unfoldable pub delete_message_tag : MessageTagState → Text → Result MessageTagState
unfolding without_tag
delete_message_tag state id = do
  existing ← found_tag (find? (has_id id) state.catalog)
  throw_if existing.built_in tag_built_in
  ok (record {
    catalog = filter (λ tag. not (has_id id tag)) state.catalog;
    assignments = without_tag id state.assignments;
  })

abbrev pub or_nil : Option (List Text) → List Text
or_nil none = []
or_nil (some ids) = ids

-- `delete`, or a write of what is left
abbrev pub set_or_delete : Text → List Text → Object (List Text) → Object (List Text)
set_or_delete k [] assignments = erase k assignments
set_or_delete k (id ∷ ids) assignments = insert k (id ∷ ids) assignments

abbrev pub retagged : Option Text → List Text → Object (List Text) → Object (List Text)
retagged none ids assignments = assignments
retagged (some to_key) ids assignments =
    if is_empty to_key then assignments else insert to_key ids assignments

-- `retagMovedMessage` past its early return
abbrev pub retag_found : MessageTagState → Text → Option Text → Option (List Text) → MessageTagState
retag_found state from_key to_key none = state
retag_found state from_key to_key (some ids) = record state {
  assignments = bound_assignments (retagged to_key ids (erase from_key state.assignments));
}

unfoldable pub retag_moved_message : MessageTagState → Text → Option Text → MessageTagState
unfolding bound_assignments
retag_moved_message state from_key to_key =
    retag_found state from_key to_key (lookup from_key state.assignments)

unfoldable pub forget_message_tags : MessageTagState → (Text → Bool) → MessageTagState
forget_message_tags state predicate = record state {
  assignments = filter (λ entry. not (predicate entry.0)) state.assignments;
}

-- the ids that occur in `ids` and are counted, each once
abbrev count_in : List Text → Text × ℕ → Text × ℕ
count_in ids (id, n) = (id, if contains ids id then n + 1 else n)

abbrev add_usage : Object (List Text) → Object ℕ → Object ℕ
add_usage [] counts = counts
add_usage ((k, ids) ∷ entries) counts = add_usage entries (map (count_in ids) counts)

-- One entry for each identifier of the catalog; an object holds a repeated one once.
unfoldable pub message_tag_usage_counts : MessageTagState → Object ℕ
message_tag_usage_counts state =
    add_usage state.assignments (map (λ id. (id, 0)) (unique (map (λ tag. tag.id) state.catalog)))

module _ (u : Unicode) where
  unfoldable pub message_tags_for : MessageTagState → Text → List MessageTag
  message_tags_for state k =
      let ids = or_nil (lookup k state.assignments) in
      sort_message_tags u (filter (λ tag. contains ids tag.id) state.catalog)

  -- the identifiers that `setMessageTags` stores
  unfoldable pub ordered_tag_ids : List MessageTag → List Text → List Text
  ordered_tag_ids catalog tag_ids =
      let known = map (λ (tag : MessageTag). tag.id) catalog in
      take tags_per_message_limit (
        map (λ (tag : MessageTag). tag.id)
          (sort_message_tags u
            (filter (λ tag. contains tag_ids tag.id && contains known tag.id) catalog)))

  unfoldable pub set_message_tags : MessageTagState → Text → List Text → MessageTagState
  unfolding ordered_tag_ids bound_assignments
  set_message_tags state k tag_ids = record state {
    assignments =
        bound_assignments
          (set_or_delete k (ordered_tag_ids state.catalog tag_ids) state.assignments);
  }

  unfoldable pub toggle_message_tag : MessageTagState → Text → Text → Bool → Result MessageTagState
  unfolding set_message_tags
  toggle_message_tag state k tag_id applied = do
    throw_if (not (any (has_id tag_id) state.catalog)) tag_not_found
    let current = or_nil (lookup k state.assignments)
    let next =
        if applied
        then unique (current ++ tag_id ∷ [])
        else filter (λ value. not (text_beq value tag_id)) current
    ok (set_message_tags state k next)
