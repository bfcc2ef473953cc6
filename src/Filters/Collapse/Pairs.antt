-- ===== src/Filters/Collapse/Pairs.antt =====
-- `collapseMessageFilterActions` of src/shared/message-filters.ts: which two actions do not go together.
use material_email.Prelude.{◌≡◌, refl, sym, true, false, arith}
use material_email.Prelude.Text.{text_beq_refl}
use material_email.Filters.Model.{
  ActionKind, mark_read, mark_unread, star, unstar, add_tag, remove_tag, move, archive, trash,
  mark_junk, mark_not_junk, FilterAction, kind_beq_refl,
}
use material_email.Filters.Collapse.{superseded, is_destination}

-- two kinds that undo each other
pub data Opposite : ActionKind → ActionKind → Type 0 where
  unread_read : Opposite mark_read mark_unread
  read_unread : Opposite mark_unread mark_read
  unstar_star : Opposite star unstar
  star_unstar : Opposite unstar star
  not_junk_junk : Opposite mark_junk mark_not_junk
  junk_not_junk : Opposite mark_not_junk mark_junk

-- the kinds that take a message to another folder
pub data Destination : ActionKind → Type 0 where
  to_folder : Destination move
  to_archive : Destination archive
  to_trash : Destination trash

-- Two actions that go together: they are not one action, do not undo each other, do not both take the
-- message to another folder, and do not add and remove one tag.
pub record Compatible (earlier later : FilterAction) : Type 0 where
  pub distinct : earlier.kind ≡ later.kind → earlier.value ≡ later.value → ⊥
  pub consistent : Opposite earlier.kind later.kind → ⊥
  pub one_place : Destination earlier.kind → Destination later.kind → ⊥
  pub not_added : earlier.kind ≡ add_tag → later.kind ≡ remove_tag → earlier.value ≡ later.value → ⊥
  pub not_removed :
      earlier.kind ≡ remove_tag → later.kind ≡ add_tag → earlier.value ≡ later.value → ⊥

Opposite-superseded :
    (earlier later : FilterAction)
    → Opposite earlier.kind later.kind
    → superseded later earlier ≡ true
unfolding superseded
Opposite-superseded earlier later o = by_kinds earlier.kind later.kind o refl refl
  where
    by_kinds :
        (k k' : ActionKind)
        → Opposite k k'
        → k ≡ earlier.kind
        → k' ≡ later.kind
        → superseded later earlier ≡ true
    by_kinds _ _ unread_read e e' = rw (sym e, sym e') ground arith
    by_kinds _ _ read_unread e e' = rw (sym e, sym e') ground arith
    by_kinds _ _ unstar_star e e' = rw (sym e, sym e') ground arith
    by_kinds _ _ star_unstar e e' = rw (sym e, sym e') ground arith
    by_kinds _ _ not_junk_junk e e' = rw (sym e, sym e') ground arith
    by_kinds _ _ junk_not_junk e e' = rw (sym e, sym e') ground arith

destination_beq : (k : ActionKind) → Destination k → is_destination k ≡ true
unfolding is_destination
destination_beq _ to_folder = refl
destination_beq _ to_archive = refl
destination_beq _ to_trash = refl

-- An action that does not take an earlier one out goes together with it.
pub superseded-Compatible :
    (earlier later : FilterAction) → superseded later earlier ≡ false → Compatible earlier later
unfolding superseded
superseded-Compatible earlier later h = record {
  distinct = λ k v. ground (arith, kind_beq_refl later.kind, text_beq_refl later.value);
  consistent = λ o. ground (arith, Opposite-superseded earlier later o);
  one_place = λ d d'. ground (arith, destination_beq earlier.kind d, destination_beq later.kind d');
  not_added = λ k k' v. ground (arith, text_beq_refl later.value);
  not_removed = λ k k' v. ground (arith, text_beq_refl later.value);
}
