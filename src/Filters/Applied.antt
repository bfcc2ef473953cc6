-- ===== src/Filters/Applied.antt =====
-- `collapseMessageFilterActions` of src/shared/message-filters.ts and the loop of `#applyFilterPlan` of
-- src/main/app-service.ts: what is done to a message, with and without collapsing.
use material_email.Prelude.{
  ◌≡◌, ◌≢◌, refl, sym, subst, ◌∙◌, Bool, true, false, not, Option, none, some, List, [], ◌∷◌, ◌++◌,
  arith, filter, any, contains, if◌then◌else◌, Bool-cases, inl, inr, All, All-append, All-filter,
  All-map, All-any-false, any-append, contains-without, ◌⊎◌,
}
use material_email.Prelude.Text.{Text, text_eq, text_beq, text_beq_iff, text_beq_refl}
use material_email.Mail.{FolderSummary}
use material_email.Junk.{junk, good}
use material_email.Filters.Model.{
  ActionKind, mark_unread, star, add_tag, remove_tag, mark_junk, FilterAction, kind_beq,
  kind_beq_refl,
}
use material_email.Filters.Collapse.{
  is_stop, is_destination, superseded, collapse_step, collapse_from,
  collapse_message_filter_actions,
}
use material_email.Filters.Collapse.Decisions.{
  Aspect, reading, starring, junking, place, tagging, decides, last_decision,
  last_decision-collapse,
}
use material_email.Filters.Effects.{
  FilterEffect, apply_kind, apply_actions, with_tag, without_tag_id,
}

-- What a last decision leaves of a part of the effect.
abbrev decided {ℓ} : {X : Type ℓ} → (FilterAction → X) → Option FilterAction → X → X
decided of none x = x
decided of (some a) x = of a

-- A part of the effect that only the actions about one aspect change, where `P` holds of an action.
module _ {ℓ κ} {X : Type ℓ} (folders : List FolderSummary) (part : FilterEffect → X)
    (of : FilterAction → X) (aspect : Aspect) (P : FilterAction → Type κ)
    (change : (e : FilterEffect) (a : FilterAction)
      → P a
      → part (apply_kind folders e a.value a.kind)
        ≡ (if decides aspect a then of a else part e)) where
  part-apply_actions :
      (actions : List FilterAction) (e : FilterEffect) (x : X) (found : Option FilterAction)
      → All P actions
      → part e ≡ decided of found x
      → part (apply_actions folders e actions) ≡ decided of (last_decision aspect found actions) x
  unfolding apply_actions last_decision
  part-apply_actions [] e x found all h = h
  part-apply_actions (a ∷ actions) e x found (p, ps) h = elim (Bool-cases (decides aspect a)) [
    | inl about ↦ rw about (
        part-apply_actions actions (apply_kind folders e a.value a.kind) x (some a) ps
          (rw about at (change e a p)))
    | inr other ↦ rw other (
        part-apply_actions actions (apply_kind folders e a.value a.kind) x found ps
          (rw other at (change e a p) ∙ h))
  ]

  part-collapse :
      (actions : List FilterAction) (e : FilterEffect)
      → All P actions
      → All P (collapse_message_filter_actions actions)
      → part (apply_actions folders e (collapse_message_filter_actions actions))
        ≡ part (apply_actions folders e actions)
  part-collapse actions e all kept =
      part-apply_actions (collapse_message_filter_actions actions) e (part e) none kept refl
      ∙ rw (last_decision-collapse aspect actions)
          (sym (part-apply_actions actions e (part e) none all refl))

All-collapse_from {κ} :
    (P : FilterAction → Type κ) (collapsed actions : List FilterAction)
    → All P collapsed
    → All P actions
    → All P (collapse_from collapsed actions)
unfolding collapse_from collapse_step
All-collapse_from P collapsed [] h k = h
All-collapse_from P collapsed (a ∷ actions) h (p, ps) = elim (Bool-cases (is_stop a.kind)) [
  | inl stops ↦ rw stops (All-collapse_from P collapsed actions h ps)
  | inr acts ↦
      let stays = λ (x : FilterAction). not (superseded a x) in
      rw acts (
        All-collapse_from P (filter stays collapsed ++ a ∷ []) actions
          (All-append P (filter stays collapsed) (a ∷ []) (All-filter P stays collapsed h) (p, tt))
          ps)
]

All-collapse {κ} :
    (P : FilterAction → Type κ) (actions : List FilterAction)
    → All P actions
    → All P (collapse_message_filter_actions actions)
unfolding collapse_message_filter_actions
All-collapse P actions h = All-collapse_from P [] actions tt h

abbrev Any : FilterAction → Type 0
Any a = Unit

All-Any : (actions : List FilterAction) → All Any actions
All-Any [] = tt
All-Any (a ∷ actions) = (tt, All-Any actions)

contains-without_self :
    (id : Text) (tags : List Text) → contains (without_tag_id id tags) id ≡ false
contains-without_self id [] = refl
contains-without_self id (t ∷ tags) = ground (arith, contains-without_self id tags)

with_tag-contains :
    (t v : Text) (tags : List Text)
    → contains (with_tag v tags) t ≡ (if text_beq v t then true else contains tags t)
with_tag-contains t v tags = elim (Bool-cases (contains tags v)) [
  | inl there ↦ rw there (elim (Bool-cases (text_beq v t)) [
    | inl same ↦ rw same (subst (λ w. contains tags w ≡ true) ((text_beq_iff v t).0 same) there)
    | inr other ↦ rw other refl
  ])
  | inr missing ↦ rw missing (any-append (λ w. text_beq w t) tags (v ∷ []) ∙ ground arith)
]

without_tag-contains :
    (t v : Text) (tags : List Text)
    → contains (without_tag_id v tags) t ≡ (if text_beq v t then false else contains tags t)
without_tag-contains t v tags = elim (Bool-cases (text_beq v t)) [
  | inl same ↦ rw same (
      subst (λ w. contains (without_tag_id v tags) w ≡ false) ((text_beq_iff v t).0 same)
        (contains-without_self v tags))
  | inr other ↦
      rw other (contains-without v t tags λ e. ground (arith, text_beq_iff v t, text_beq_refl v))
]

module _ (folders : List FolderSummary) where
  unread-change :
      (e : FilterEffect) (value : Text) (kind : ActionKind)
      → (apply_kind folders e value kind).unread ≡ (
          if decides reading (record { kind = kind; value = value })
          then some (kind_beq kind mark_unread)
          else e.unread)
  unfolding decides kind_beq
  unread-change e value kind = ground arith

  starred-change :
      (e : FilterEffect) (value : Text) (kind : ActionKind)
      → (apply_kind folders e value kind).starred ≡ (
          if decides starring (record { kind = kind; value = value })
          then some (kind_beq kind star)
          else e.starred)
  unfolding decides kind_beq
  starred-change e value kind = ground arith

  junk_label-change :
      (e : FilterEffect) (value : Text) (kind : ActionKind)
      → (apply_kind folders e value kind).junk_label ≡ (
          if decides junking (record { kind = kind; value = value })
          then some (if kind_beq kind mark_junk then junk else good)
          else e.junk_label)
  unfolding decides kind_beq
  junk_label-change e value kind = ground arith

  tag-change :
      (t : Text) (e : FilterEffect) (value : Text) (kind : ActionKind)
      → contains (apply_kind folders e value kind).tag_ids t ≡ (
          if decides (tagging t) (record { kind = kind; value = value })
          then kind_beq kind add_tag
          else contains e.tag_ids t)
  unfolding decides kind_beq
  tag-change t e value add_tag = with_tag-contains t value e.tag_ids
  tag-change t e value remove_tag = without_tag-contains t value e.tag_ids
  tag-change t e value kind = ground arith

  abbrev folder_of : ActionKind → Text → Option Text
  folder_of kind value =
      (apply_kind folders
        (record {
          destination = none;
          junk_label = none;
          unread = none;
          starred = none;
          tag_ids = [];
          tags_changed = false;
        })
        value kind).destination

  destination-change :
      (e : FilterEffect) (value : Text) (kind : ActionKind)
      → kind ≢ mark_junk
      → (apply_kind folders e value kind).destination ≡ (
          if decides place (record { kind = kind; value = value })
          then folder_of kind value
          else e.destination)
  unfolding decides is_destination
  destination-change e value mark_junk h = absurd (h refl)
  destination-change e value kind h = ground arith

abbrev pub marks_junk : FilterAction → Bool
marks_junk a = kind_beq a.kind mark_junk

not_marks_junk : (a : FilterAction) → marks_junk a ≡ false → a.kind ≢ mark_junk
not_marks_junk a h e = ground (arith, kind_beq_refl mark_junk)

-- The collapsed actions on a message set the same read and starred flags and the same junk label as
-- all of them in order would, and leave the same tags on it; and they take it to the same folder,
-- unless one of them marks it as junk, which may choose a folder too.
pub apply_actions-collapse :
    (folders : List FolderSummary) (e : FilterEffect) (actions : List FilterAction) (t : Text)
    → let collapsed = apply_actions folders e (collapse_message_filter_actions actions) in
      let whole = apply_actions folders e actions in
      (collapsed.unread ≡ whole.unread)
      × (collapsed.starred ≡ whole.starred)
      × (collapsed.junk_label ≡ whole.junk_label)
      × (contains collapsed.tag_ids t ≡ contains whole.tag_ids t)
      × ((any marks_junk actions ≡ true) ⊎ (collapsed.destination ≡ whole.destination))
apply_actions-collapse folders e actions t =
    let all = All-Any actions in
    let kept = All-Any (collapse_message_filter_actions actions) in
    (
      part-collapse folders (λ x. x.unread) (λ a. some (kind_beq a.kind mark_unread)) reading Any
          (λ f a p. unread-change folders f a.value a.kind) actions e all kept,
      part-collapse folders (λ x. x.starred) (λ a. some (kind_beq a.kind star)) starring Any
          (λ f a p. starred-change folders f a.value a.kind) actions e all kept,
      part-collapse folders (λ x. x.junk_label)
          (λ a. some (if kind_beq a.kind mark_junk then junk else good)) junking Any
          (λ f a p. junk_label-change folders f a.value a.kind) actions e all kept,
      part-collapse folders (λ x. contains x.tag_ids t) (λ a. kind_beq a.kind add_tag) (tagging t)
          Any (λ f a p. tag-change folders t f a.value a.kind) actions e all kept,
      elim (Bool-cases (any marks_junk actions)) [
        | inl marked ↦ inl marked
        | inr unmarked ↦
            let no_junk : All (λ (a : FilterAction). a.kind ≢ mark_junk) actions =
              All-map {Q = λ (a : FilterAction). a.kind ≢ mark_junk} not_marks_junk actions
                (All-any-false marks_junk actions unmarked) in
            inr (
              part-collapse folders (λ x. x.destination) (λ a. folder_of folders a.kind a.value)
                place (λ a. a.kind ≢ mark_junk)
                (λ f a p. destination-change folders f a.value a.kind p) actions e no_junk
                (All-collapse (λ a. a.kind ≢ mark_junk) actions no_junk))
      ],
    )
