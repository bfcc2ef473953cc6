-- ===== src/Tags/Reads.antt =====
-- Reading assignments back after `setMessageTags` and `retagMovedMessage`
-- (src/shared/message-tags.ts).
use material_email.Prelude.{
  ◌+◌, ◌≤◌, ◌<◌, ◌≡◌, ap, ◌∙◌, false, none, some, List, [], ◌∷◌, arith, length, Bool-cases, inl,
  inr, if◌then◌else◌,
}
use material_email.Prelude.Text.{Text, text_beq, text_beq_iff, text_eq, is_empty}
use material_email.Runtime.{Unicode}
use material_email.Mail.{Object, lookup, insert, erase}
use material_email.Mail.Objects.{lookup-insert, lookup-erase, length-insert, length-erase}
use material_email.Tags.Names.{assignment_limit}
use material_email.Tags.Assignments.{
  MessageTagState, bound_assignments, or_nil, set_or_delete, retag_moved_message, ordered_tag_ids,
  set_message_tags,
}

bound_assignments_of_le :
    (m : Object (List Text)) → length m ≤ assignment_limit → bound_assignments m ≡ m
unfolding bound_assignments
bound_assignments_of_le m h = ground arith

length-set_or_delete :
    (k : Text) (ids : List Text) (m : Object (List Text))
    → length (set_or_delete k ids m) ≤ length m + 1
length-set_or_delete k [] m = omega (arith, length-erase k m)
length-set_or_delete k (id ∷ ids) m = length-insert k (id ∷ ids) m

lookup-set_or_delete :
    (k j : Text) (ids : List Text) (m : Object (List Text))
    → or_nil (lookup j (set_or_delete k ids m))
      ≡ (if text_beq k j then ids else or_nil (lookup j m))
lookup-set_or_delete k j [] m = ground (arith, lookup-erase k j m)
lookup-set_or_delete k j (id ∷ ids) m = ground (arith, lookup-insert k j (id ∷ ids) m)

-- After a write to a state with room for one more entry, the message carries the chosen tags of the
-- catalog, in its order, and every other message carries what it did.
pub lookup-set_message_tags :
    (u : Unicode) (s : MessageTagState) (k j : Text) (tag_ids : List Text)
    → length s.assignments < assignment_limit
    → or_nil (lookup j (set_message_tags u s k tag_ids).assignments) ≡ (
        if text_beq k j
        then ordered_tag_ids u s.catalog tag_ids
        else or_nil (lookup j s.assignments))
unfolding set_message_tags
lookup-set_message_tags u s k j tag_ids room =
    ap (λ m. or_nil (lookup j m))
      (bound_assignments_of_le (set_or_delete k (ordered_tag_ids u s.catalog tag_ids) s.assignments)
        (omega (arith, length-set_or_delete k (ordered_tag_ids u s.catalog tag_ids) s.assignments)))
    ∙ lookup-set_or_delete k j (ordered_tag_ids u s.catalog tag_ids) s.assignments

length-erase_of_present :
    (k : Text) (ids : List Text) (m : Object (List Text))
    → lookup k m ≡ some ids
    → length (erase k m) < length m
unfolding erase lookup
length-erase_of_present k ids [] h = cc
length-erase_of_present k ids ((i, w) ∷ m) h = elim (Bool-cases (text_beq i k)) [
  | inl same ↦ rw same (omega (arith, length-erase k m))
  | inr other ↦ rw other (omega (arith, length-erase_of_present k ids m (rw other at h)))
]

-- In a state within the limit on its entries, a move of a tagged message to a mailbox that reports
-- the new place takes the tags along: they are read under the new key, not under the old one unless
-- it is the same, and every other message carries what it did. No entry is dropped.
pub lookup-retag_moved_message :
    (s : MessageTagState) (from_key to_key j : Text) (ids : List Text)
    → length s.assignments ≤ assignment_limit
    → is_empty to_key ≡ false
    → lookup from_key s.assignments ≡ some ids
    → lookup j (retag_moved_message s from_key (some to_key)).assignments ≡ (
        if text_beq to_key j
        then some ids
        else if text_beq from_key j
        then none
        else lookup j s.assignments)
unfolding retag_moved_message
lookup-retag_moved_message s from_key to_key j ids bounded filled found =
    rw (found, filled)
      (ap (lookup j) (
          bound_assignments_of_le (insert to_key ids (erase from_key s.assignments)) (
            omega (
              arith,
              length-insert to_key ids (erase from_key s.assignments),
              length-erase_of_present from_key ids s.assignments found,
            )))
        ∙ ground (
          arith,
          lookup-insert to_key j ids (erase from_key s.assignments),
          lookup-erase from_key j s.assignments,
        ))

-- In a state within the limit on its entries, a move whose destination is not known drops the tags
-- of the message, and no others.
pub lookup-retag_moved_message_unknown :
    (s : MessageTagState) (from_key j : Text)
    → length s.assignments ≤ assignment_limit
    → lookup j (retag_moved_message s from_key none).assignments
      ≡ (if text_beq from_key j then none else lookup j s.assignments)
unfolding retag_moved_message
lookup-retag_moved_message_unknown s from_key j bounded = ground (
  arith,
  text_beq_iff from_key j,
  bound_assignments_of_le (erase from_key s.assignments),
  length-erase from_key s.assignments,
  lookup-erase from_key j s.assignments,
)
