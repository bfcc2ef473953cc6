-- ===== src/Tags/Deletion.antt =====
-- `deleteMessageTag` of src/shared/message-tags.ts on well-formed states.
use material_email.Prelude.{
  ◌≤◌, ◌≡◌, ◌≢◌, refl, subst, ◌∙◌, true, false, not, none, List, [], ◌∷◌, arith, length,
  length-filter, filter, contains, All, AllPairs-filter, Bool-cases, inl, inr,
}
use material_email.Prelude.Text.{Text, text_beq, text_beq_iff, text_eq}
use material_email.Runtime.{Unicode}
use material_email.Mail.{Object, lookup, HasDistinctKeys}
use material_email.Tags.Names.{MessageTag}
use material_email.Tags.Catalog.{ok, has_id}
use material_email.Tags.Catalogs.{filter-IsCatalog}
use material_email.Tags.Assignments.{
  MessageTagState, is_nil, without_tag, delete_message_tag, or_nil,
}
use material_email.Tags.Entries.{IsEntry, ids_of}
use material_email.Tags.States.{IsTagState}

module _ (id : Text) where
  abbrev other_ids : List Text → List Text
  other_ids = filter (λ value. not (text_beq value id))

  abbrev other_tags : List MessageTag → List MessageTag
  other_tags = filter (λ tag. not (has_id id tag))

  length-without_tag : (m : Object (List Text)) → length (without_tag id m) ≤ length m
  unfolding without_tag
  length-without_tag [] = omega arith
  length-without_tag ((k, ids) ∷ m) = ground (arith, length-without_tag m)

  without_tag-All_keys :
      (j : Text) (m : Object (List Text))
      → All (λ e. e.0 ≢ j) m
      → All (λ e. e.0 ≢ j) (without_tag id m)
  unfolding without_tag
  without_tag-All_keys j [] h = tt
  without_tag-All_keys j ((k, ids) ∷ m) (h, hs) = elim (Bool-cases (is_nil (other_ids ids))) [
    | inl e ↦ rw e (without_tag-All_keys j m hs)
    | inr e ↦ rw e (h, without_tag-All_keys j m hs)
  ]

  without_tag-HasDistinctKeys :
      (m : Object (List Text)) → HasDistinctKeys m → HasDistinctKeys (without_tag id m)
  unfolding without_tag
  without_tag-HasDistinctKeys [] h = tt
  without_tag-HasDistinctKeys ((k, ids) ∷ m) (d, h) = elim (Bool-cases (is_nil (other_ids ids))) [
    | inl e ↦ rw e (without_tag-HasDistinctKeys m h)
    | inr e ↦ rw e (without_tag-All_keys k m d, without_tag-HasDistinctKeys m h)
  ]

  contains-other_tags :
      (catalog : List MessageTag) (x : Text)
      → text_beq x id ≡ false
      → contains (ids_of (other_tags catalog)) x ≡ contains (ids_of catalog) x
  contains-other_tags [] x h = refl
  contains-other_tags (t ∷ catalog) x h = ground (
    arith,
    text_beq_iff t.id id,
    text_beq_iff t.id x,
    text_beq_iff x id,
    contains-other_tags catalog x h,
  )

  other_ids-known :
      (catalog : List MessageTag) (ids : List Text)
      → All (λ x. contains (ids_of catalog) x ≡ true) ids
      → All (λ x. contains (ids_of (other_tags catalog)) x ≡ true) (other_ids ids)
  other_ids-known catalog [] h = tt
  other_ids-known catalog (x ∷ ids) (h, hs) = elim (Bool-cases (text_beq x id)) [
    | inl same ↦ rw same (other_ids-known catalog ids hs)
    | inr other ↦ rw other (contains-other_tags catalog x other ∙ h, other_ids-known catalog ids hs)
  ]

  without_tag-entries :
      (catalog : List MessageTag) (m : Object (List Text))
      → All (IsEntry catalog) m
      → All (IsEntry (other_tags catalog)) (without_tag id m)
  unfolding without_tag
  without_tag-entries catalog [] h = tt
  without_tag-entries catalog ((k, ids) ∷ m) ((filled, few, known, distinct), hs) =
      elim (Bool-cases (is_nil (other_ids ids))) [
        | inl e ↦ rw e (without_tag-entries catalog m hs)
        | inr e ↦ rw e (
          (
            e,
            omega (arith, length-filter (λ value. not (text_beq value id)) ids, few),
            other_ids-known catalog ids known,
            AllPairs-filter (λ a b. b ≢ a) (λ value. not (text_beq value id)) ids distinct,
          ),
          without_tag-entries catalog m hs,
        )
      ]

  absent-without_tag :
      (j : Text) (m : Object (List Text))
      → All (λ e. e.0 ≢ j) m
      → lookup j (without_tag id m) ≡ none
  unfolding lookup without_tag
  absent-without_tag j [] h = refl
  absent-without_tag j ((k, ids) ∷ m) (h, hs) =
      ground (arith, text_beq_iff k j, absent-without_tag j m hs)

  -- Every message keeps its other tags, in order.
  lookup-without_tag :
      (j : Text) (m : Object (List Text))
      → HasDistinctKeys m
      → or_nil (lookup j (without_tag id m)) ≡ other_ids (or_nil (lookup j m))
  unfolding lookup without_tag
  lookup-without_tag j [] h = refl
  lookup-without_tag j ((k, ids) ∷ m) (d, h) = elim (Bool-cases (text_beq k j)) [
    | inl same ↦
        let gone : lookup j (without_tag id m) ≡ none =
          absent-without_tag j m
            (subst (λ i. All (λ e. e.0 ≢ i) m) ((text_beq_iff k j).0 same) d) in
        ground (arith, gone)
    | inr other ↦ ground (arith, lookup-without_tag j m h)
  ]

module _ (u : Unicode) where
  -- What a deletion does where it succeeds.
  pub record IsDeleted (s : MessageTagState) (id : Text) (t : MessageTagState) : Type 0 where
    pub valid : IsTagState u t
    pub gone : contains (ids_of t.catalog) id ≡ false
    pub others :
        (x : Text)
        → text_beq x id ≡ false
        → contains (ids_of t.catalog) x ≡ contains (ids_of s.catalog) x
    pub tags :
        (k : Text)
        → or_nil (lookup k t.assignments)
          ≡ filter (λ value. not (text_beq value id)) (or_nil (lookup k s.assignments))

  gone-other_tags :
      (id : Text) (catalog : List MessageTag) → contains (ids_of (other_tags id catalog)) id ≡ false
  gone-other_tags id [] = refl
  gone-other_tags id (t ∷ catalog) = ground (arith, gone-other_tags id catalog)

  -- A deletion that succeeds on a well-formed state leaves a well-formed state in which neither the
  -- catalog nor a message has the tag, while all other tags stay in the catalog and, in order, on
  -- every message.
  pub delete_message_tag-IsDeleted :
      (s : MessageTagState) (id : Text) (t : MessageTagState)
      → IsTagState u s
      → delete_message_tag s id ≡ ok t
      → IsDeleted s id t
  unfolding delete_message_tag
  delete_message_tag-IsDeleted s id t h e =
      let result : t ≡ record {
        catalog = other_tags id s.catalog;
        assignments = without_tag id s.assignments;
      } =
        ground arith in
      rw result (record {
        valid = record {
          catalog = filter-IsCatalog u (λ tag. not (has_id id tag)) s.catalog h.catalog;
          assignments = record {
            bounded = omega (arith, length-without_tag id s.assignments, h.assignments.bounded);
            distinct = without_tag-HasDistinctKeys id s.assignments h.assignments.distinct;
            entries = without_tag-entries id s.catalog s.assignments h.assignments.entries;
          };
        };
        gone = gone-other_tags id s.catalog;
        others = contains-other_tags id s.catalog;
        tags = λ k. lookup-without_tag id k s.assignments h.assignments.distinct;
      })
