-- ===== src/Tags/States.antt =====
-- The well-formed tag states of src/shared/message-tags.ts and the operations on them.
use material_email.Prelude.{
  ℕ, zero, suc, ◌+◌, ◌-◌, ◌≤◌, ◌<◌, ◌≡◌, ◌≢◌, refl, sym, subst, ap, ◌∙◌, Bool, true, false, not,
  ◌&&◌, Option, none, some, List, [], ◌∷◌, ◌++◌, map, arith, leb, length, length-drop, length-take,
  length-filter, take, drop, filter, contains, contains-without, All, All-map, All-take, All-filter,
  All-sort, All-of_map, filter_sound, AllPairs, AllPairs-filter, AllPairs-take, AllPairs-sort,
  AllPairs-map, Bool-cases, Option-cases, inl, inr, if◌then◌else◌, any, find?, unique,
}
use material_email.Prelude.Text.{Text, text_beq, text_eq}
use material_email.Runtime.{Unicode}
use material_email.Mail.{Object, lookup, erase, HasDistinctKeys}
use material_email.Mail.Objects.{
  All-insert, All-erase, insert-HasDistinctKeys, erase-HasDistinctKeys,
}
use material_email.Tags.Names.{MessageTag, tags_per_message_limit}
use material_email.Tags.Catalog.{ok, sort_message_tags, compare_tags}
use material_email.Tags.Catalogs.{Differ, Differ-symm, IsCatalog}
use material_email.Tags.Assignments.{
  MessageTagState, is_nil, or_nil, set_or_delete, retagged, retag_moved_message,
  forget_message_tags, ordered_tag_ids, set_message_tags, toggle_message_tag,
}
use material_email.Tags.Entries.{
  ids_of, filter-HasDistinctKeys, lookup-All, IsTagList, IsEntry, IsAssignments,
  bound_assignments-IsAssignments, set_or_delete-entries, set_or_delete-HasDistinctKeys,
}

module _ (u : Unicode) where
  pub record IsTagState (s : MessageTagState) : Type 0 where
    pub catalog : IsCatalog u s.catalog
    pub assignments : IsAssignments s.catalog s.assignments

  -- What `setMessageTags` stores is a list of known tags.
  pub ordered_tag_ids-IsTagList :
      (catalog : List MessageTag) (tag_ids : List Text)
      → IsCatalog u catalog
      → is_nil (ordered_tag_ids u catalog tag_ids) ≡ false
      → IsTagList catalog (ordered_tag_ids u catalog tag_ids)
  unfolding ordered_tag_ids sort_message_tags
  ordered_tag_ids-IsTagList catalog tag_ids c filled =
      let selects =
        λ (tag : MessageTag). contains tag_ids tag.id && contains (ids_of catalog) tag.id in
      let known = λ (id : Text). contains (ids_of catalog) id ≡ true in
      let chosen = filter selects catalog in
      (
        filled,
        omega (
          arith,
          length-take tags_per_message_limit
              (ids_of (material_email.Prelude.Sort.sort (compare_tags u) chosen)),
        ),
        All-take known tags_per_message_limit _ (
            All-of_map known (λ (tag : MessageTag). tag.id) _
              (All-sort (compare_tags u) (λ tag. contains (ids_of catalog) tag.id ≡ true) chosen
                (All-map (λ (tag : MessageTag) h. ground arith) chosen
                  (filter_sound selects catalog)))),
        AllPairs-take (λ a b. b ≢ a) tags_per_message_limit _
            (AllPairs-map (λ a b. b ≢ a) (λ (tag : MessageTag). tag.id)
              (λ s t (d : Differ u s t). d.0) _
              (AllPairs-sort (Differ u) (compare_tags u) (Differ-symm u) chosen
                (AllPairs-filter (Differ u) selects catalog c.differ))),
      )

  -- A write of tags keeps the state well formed: its catalog, the bound on its entries, and on each
  -- entry the known, distinct tags, at least one and no more than the limit.
  pub set_message_tags-IsTagState :
      (s : MessageTagState) (k : Text) (tag_ids : List Text)
      → IsTagState s
      → IsTagState (set_message_tags u s k tag_ids)
  unfolding set_message_tags
  set_message_tags-IsTagState s k tag_ids h = record {
    catalog = h.catalog;
    assignments =
        bound_assignments-IsAssignments s.catalog
          (set_or_delete k (ordered_tag_ids u s.catalog tag_ids) s.assignments)
          (set_or_delete-HasDistinctKeys k (ordered_tag_ids u s.catalog tag_ids) s.assignments
            h.assignments.distinct)
          (set_or_delete-entries s.catalog k (ordered_tag_ids u s.catalog tag_ids) s.assignments
            (ordered_tag_ids-IsTagList s.catalog tag_ids h.catalog) h.assignments.entries);
  }

  -- A toggle that succeeds keeps the state well formed.
  pub toggle_message_tag-IsTagState :
      (s : MessageTagState) (k tag_id : Text) (applied : Bool) (t : MessageTagState)
      → IsTagState s
      → toggle_message_tag u s k tag_id applied ≡ ok t
      → IsTagState t
  unfolding toggle_message_tag
  toggle_message_tag-IsTagState s k tag_id applied t h e =
      let next =
        if applied
        then unique (or_nil (lookup k s.assignments) ++ tag_id ∷ [])
        else filter (λ value. not (text_beq value tag_id)) (or_nil (lookup k s.assignments)) in
      let same : set_message_tags u s k next ≡ t = ground arith in
      subst IsTagState same (set_message_tags-IsTagState s k next h)

  retagged-HasDistinctKeys :
      (to_key : Option Text) (ids : List Text) (m : Object (List Text))
      → HasDistinctKeys m
      → HasDistinctKeys (retagged to_key ids m)
  retagged-HasDistinctKeys none ids m h = h
  retagged-HasDistinctKeys (some []) ids m h = h
  retagged-HasDistinctKeys (some (c ∷ k)) ids m h = insert-HasDistinctKeys (c ∷ k) ids m h

  retagged-entries :
      (catalog : List MessageTag) (to_key : Option Text) (ids : List Text) (m : Object (List Text))
      → IsTagList catalog ids
      → All (IsEntry catalog) m
      → All (IsEntry catalog) (retagged to_key ids m)
  retagged-entries catalog none ids m valid a = a
  retagged-entries catalog (some []) ids m valid a = a
  retagged-entries catalog (some (c ∷ k)) ids m valid a =
      All-insert (IsEntry catalog) (c ∷ k) ids m valid a

  -- A move keeps the state well formed, whether or not its destination is known.
  pub retag_moved_message-IsTagState :
      (s : MessageTagState) (from_key : Text) (to_key : Option Text)
      → IsTagState s
      → IsTagState (retag_moved_message s from_key to_key)
  unfolding retag_moved_message
  retag_moved_message-IsTagState s from_key to_key h =
      elim (Option-cases (lookup from_key s.assignments)) [
        | inl untagged ↦ rw untagged h
        | inr (ids, found) ↦ rw found (record {
          catalog = h.catalog;
          assignments =
              bound_assignments-IsAssignments s.catalog
                (retagged to_key ids (erase from_key s.assignments))
                (retagged-HasDistinctKeys to_key ids (erase from_key s.assignments)
                  (erase-HasDistinctKeys from_key s.assignments h.assignments.distinct))
                (retagged-entries s.catalog to_key ids (erase from_key s.assignments)
                  (lookup-All (IsEntry s.catalog) from_key ids s.assignments (λ j p. p)
                    h.assignments.entries found)
                  (All-erase (IsEntry s.catalog) from_key s.assignments h.assignments.entries));
        })
      ]

  -- To forget the messages that a test picks keeps the state well formed.
  pub forget_message_tags-IsTagState :
      (s : MessageTagState) (predicate : Text → Bool)
      → IsTagState s
      → IsTagState (forget_message_tags s predicate)
  unfolding forget_message_tags
  forget_message_tags-IsTagState s predicate h =
      let stays = λ (entry : Text × List Text). not (predicate entry.0) in
      record {
        catalog = h.catalog;
        assignments = record {
          bounded = omega (arith, length-filter stays s.assignments, h.assignments.bounded);
          distinct = filter-HasDistinctKeys stays s.assignments h.assignments.distinct;
          entries = All-filter (IsEntry s.catalog) stays s.assignments h.assignments.entries;
        };
      }
