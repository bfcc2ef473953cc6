-- ===== src/Filters/Collapse/Decisions.antt =====
-- `collapseMessageFilterActions` of src/shared/message-filters.ts: what a list of actions decides.
use material_email.Prelude.{
  ◌≡◌, refl, ap, ◌∙◌, Bool, true, false, not, ◌&&◌, ◌||◌, Option, none, some, List, [], ◌∷◌, ◌++◌,
  arith, filter, if◌then◌else◌, Bool-cases, inl, inr,
}
use material_email.Prelude.Text.{Text, text_beq, text_beq_iff}
use material_email.Filters.Model.{
  ActionKind, mark_read, mark_unread, star, unstar, add_tag, remove_tag, mark_junk, mark_not_junk,
  FilterAction, kind_beq,
}
use material_email.Filters.Collapse.{
  is_destination, is_stop, superseded, collapse_step, collapse_from,
  collapse_message_filter_actions,
}

-- What actions are about: whether a message is read, starred or junk, the folder to which it is
-- moved, archived or deleted, and whether it has one tag.
pub data Aspect : Type 0 where
  reading starring junking place : Aspect
  tagging : Text → Aspect

-- the decision of an action about an aspect: the action itself, if it is about it
unfoldable pub decides : Aspect → FilterAction → Bool
unfolding is_destination
decides reading a = kind_beq a.kind mark_read || kind_beq a.kind mark_unread
decides starring a = kind_beq a.kind star || kind_beq a.kind unstar
decides junking a = kind_beq a.kind mark_junk || kind_beq a.kind mark_not_junk
decides place a = is_destination a.kind
decides (tagging t) a =
    (kind_beq a.kind add_tag || kind_beq a.kind remove_tag) && text_beq a.value t

-- The last action about an aspect, or what was found before.
unfoldable pub last_decision :
    Aspect → Option FilterAction → List FilterAction → Option FilterAction
unfolding decides
last_decision aspect found [] = found
last_decision aspect found (a ∷ actions) =
    last_decision aspect (if decides aspect a then some a else found) actions

-- An action takes out only actions that are about an aspect that it decides too.
superseded-decides_by :
    (aspect : Aspect) (k : ActionKind) (v : Text) (existing : FilterAction)
    → superseded (record { kind = k; value = v }) existing ≡ true
    → decides aspect existing ≡ true
    → decides aspect (record { kind = k; value = v }) ≡ true
unfolding superseded decides
superseded-decides_by reading k v existing s d = ground arith
superseded-decides_by starring k v existing s d = ground arith
superseded-decides_by junking k v existing s d = ground arith
superseded-decides_by place k v existing s d = ground arith
superseded-decides_by (tagging t) k v existing s d =
    ground (arith, text_beq_iff existing.value t, text_beq_iff existing.value v, text_beq_iff v t)

last_decision-append :
    (aspect : Aspect) (found : Option FilterAction) (xs : List FilterAction) (a : FilterAction)
    → last_decision aspect found (xs ++ a ∷ [])
      ≡ (if decides aspect a then some a else last_decision aspect found xs)
unfolding last_decision
last_decision-append aspect found [] a = refl
last_decision-append aspect found (x ∷ xs) a =
    last_decision-append aspect (if decides aspect x then some x else found) xs a

-- Taking out actions about other aspects does not change the last decision.
last_decision-filter :
    (aspect : Aspect) (action : FilterAction) (found : Option FilterAction) (xs : List FilterAction)
    → decides aspect action ≡ false
    → last_decision aspect found (filter (λ x. not (superseded action x)) xs)
      ≡ last_decision aspect found xs
unfolding last_decision
last_decision-filter aspect action found [] h = refl
last_decision-filter aspect action found (x ∷ xs) h = elim (Bool-cases (superseded action x)) [
  | inl gone ↦
      let unrelated : decides aspect x ≡ false =
        ground (arith, superseded-decides_by aspect action.kind action.value x gone) in
      rw (gone, unrelated) (last_decision-filter aspect action found xs h)
  | inr kept ↦
      rw kept (last_decision-filter aspect action (if decides aspect x then some x else found) xs h)
]

stop-decides :
    (aspect : Aspect) (action : FilterAction)
    → is_stop action.kind ≡ true
    → decides aspect action ≡ false
unfolding decides kind_beq
stop-decides aspect action h = ground arith

last_decision-collapse_step :
    (aspect : Aspect) (collapsed : List FilterAction) (a : FilterAction)
    → last_decision aspect none (collapse_step collapsed a)
      ≡ (if decides aspect a then some a else last_decision aspect none collapsed)
unfolding collapse_step
last_decision-collapse_step aspect collapsed a = elim (Bool-cases (is_stop a.kind)) [
  | inl stops ↦ rw (stops, stop-decides aspect a stops) refl
  | inr acts ↦ rw acts (
      last_decision-append aspect none (filter (λ x. not (superseded a x)) collapsed) a
      ∙ ground (arith, last_decision-filter aspect a none collapsed))
]

last_decision-collapse_from :
    (aspect : Aspect) (collapsed xs : List FilterAction)
    → last_decision aspect none (collapse_from collapsed xs)
      ≡ last_decision aspect (last_decision aspect none collapsed) xs
unfolding collapse_from last_decision
last_decision-collapse_from aspect collapsed [] = refl
last_decision-collapse_from aspect collapsed (a ∷ xs) =
    last_decision-collapse_from aspect (collapse_step collapsed a) xs
    ∙ ap (λ found. last_decision aspect found xs) (last_decision-collapse_step aspect collapsed a)

-- For every aspect of a message (whether it is read, starred or junk, the folder that moving,
-- archiving and deleting decide, and each tag), the last action about it is the same before and after
-- collapsing.
pub last_decision-collapse :
    (aspect : Aspect) (actions : List FilterAction)
    → last_decision aspect none (collapse_message_filter_actions actions)
      ≡ last_decision aspect none actions
unfolding collapse_message_filter_actions last_decision
last_decision-collapse aspect actions = last_decision-collapse_from aspect [] actions
