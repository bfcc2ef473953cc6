-- ===== src/Filters/Collapse/Laws.antt =====
-- `collapseMessageFilterActions` of src/shared/message-filters.ts: which actions are left.
use material_email.Prelude.{
  ◌≡◌, refl, sym, subst, ◌∙◌, Bool, true, false, not, ◌||◌, List, [], ◌∷◌, ◌++◌, arith, filter, All,
  All-append, All-filter, All-map, filter_sound, filter-All, AllPairs, AllPairs-concat,
  AllPairs-filter, Bool-cases, inl, inr, any,
}
use mathlib.Core.List.{append-nil, append_assoc}
use material_email.Filters.Model.{FilterAction}
use material_email.Filters.Evaluation.{has_some}
use material_email.Filters.Collapse.Pairs.{Compatible}
use material_email.Filters.Collapse.{
  is_stop, superseded, collapse_step, collapse_from, collapse_message_filter_actions,
}

abbrev IsKept : FilterAction → FilterAction → Type 0
IsKept earlier later = superseded later earlier ≡ false

-- No action stops, and none takes an earlier one out.
record IsSettled (actions : List FilterAction) : Type 0 where
  acting : All (λ a. is_stop a.kind ≡ false) actions
  kept : AllPairs IsKept actions

collapse_step-IsSettled :
    (collapsed : List FilterAction) (a : FilterAction)
    → IsSettled collapsed
    → IsSettled (collapse_step collapsed a)
unfolding collapse_step
collapse_step-IsSettled collapsed a h = elim (Bool-cases (is_stop a.kind)) [
  | inl stops ↦ rw stops h
  | inr acts ↦
      let stays = λ (x : FilterAction). not (superseded a x) in
      rw acts (record {
        acting =
            All-append (λ x. is_stop x.kind ≡ false) (filter stays collapsed) (a ∷ [])
              (All-filter (λ x. is_stop x.kind ≡ false) stays collapsed h.acting) (acts, tt);
        kept =
            AllPairs-concat IsKept (filter stays collapsed) a
              (AllPairs-filter IsKept stays collapsed h.kept)
              (All-map (λ (x : FilterAction) e. ground arith) (filter stays collapsed)
                (filter_sound stays collapsed));
      })
]

collapse_from-IsSettled :
    (collapsed actions : List FilterAction)
    → IsSettled collapsed
    → IsSettled (collapse_from collapsed actions)
unfolding collapse_from
collapse_from-IsSettled collapsed [] h = h
collapse_from-IsSettled collapsed (a ∷ actions) h =
    collapse_from-IsSettled (collapse_step collapsed a) actions
      (collapse_step-IsSettled collapsed a h)

collapse-IsSettled :
    (actions : List FilterAction) → IsSettled (collapse_message_filter_actions actions)
unfolding collapse_message_filter_actions
collapse-IsSettled actions = collapse_from-IsSettled [] actions (record { acting = tt; kept = tt })

-- Actions of which none stops and every two go together.
pub record IsCollapsed (actions : List FilterAction) : Type 0 where
  pub acting : All (λ a. is_stop a.kind ≡ false) actions
  pub compatible : AllPairs Compatible actions

AllPairs-middle :
    (xs : List FilterAction) (a : FilterAction) (ys : List FilterAction)
    → AllPairs IsKept (xs ++ a ∷ ys)
    → All (λ x. not (superseded a x) ≡ true) xs
AllPairs-middle [] a ys h = tt
AllPairs-middle (x ∷ xs) a ys (h, hs) = (at_middle xs h, AllPairs-middle xs a ys hs)
  where
    at_middle :
        (ws : List FilterAction) → All (IsKept x) (ws ++ a ∷ ys) → not (superseded a x) ≡ true
    at_middle [] (k, ks) = ground arith
    at_middle (w ∷ ws) (k, ks) = at_middle ws ks

collapse_from_of_IsSettled :
    (collapsed actions : List FilterAction)
    → All (λ a. is_stop a.kind ≡ false) actions
    → AllPairs IsKept (collapsed ++ actions)
    → collapse_from collapsed actions ≡ collapsed ++ actions
unfolding collapse_from collapse_step
collapse_from_of_IsSettled collapsed [] h k = sym (append-nil collapsed)
collapse_from_of_IsSettled collapsed (a ∷ actions) (h, hs) k =
    let stays : filter (λ x. not (superseded a x)) collapsed ≡ collapsed =
      filter-All (λ x. not (superseded a x)) collapsed (AllPairs-middle collapsed a actions k) in
    let regroup : (collapsed ++ a ∷ []) ++ actions ≡ collapsed ++ a ∷ actions =
      append_assoc collapsed (a ∷ []) actions in
    rw (h, stays)
      (collapse_from_of_IsSettled (collapsed ++ a ∷ []) actions hs
          (subst (AllPairs IsKept) (sym regroup) k)
        ∙ regroup)

-- Collapsing a second time changes nothing.
pub collapse_idem :
    (actions : List FilterAction)
    → collapse_message_filter_actions (collapse_message_filter_actions actions)
      ≡ collapse_message_filter_actions actions
collapse_idem actions =
    let c = collapse-IsSettled actions in
    unfold collapse_message_filter_actions in
    collapse_from_of_IsSettled [] (collapse_message_filter_actions actions) c.acting c.kept

has_some-concat : (xs : List FilterAction) (a : FilterAction) → has_some (xs ++ a ∷ []) ≡ true
has_some-concat [] a = refl
has_some-concat (x ∷ xs) a = refl

abbrev pub acts : FilterAction → Bool
acts a = not (is_stop a.kind)

has_some-collapse_from :
    (collapsed actions : List FilterAction)
    → has_some (collapse_from collapsed actions) ≡ (has_some collapsed || any acts actions)
unfolding collapse_from collapse_step
has_some-collapse_from collapsed [] = ground arith
has_some-collapse_from collapsed (a ∷ actions) = elim (Bool-cases (is_stop a.kind)) [
  | inl stops ↦ rw stops (has_some-collapse_from collapsed actions)
  | inr going ↦
      let stays = filter (λ x. not (superseded a x)) collapsed in
      rw going
        (ground (arith, has_some-collapse_from (stays ++ a ∷ []) actions, has_some-concat stays a))
]

-- Collapsing leaves an action where there is one that does not stop.
pub has_some-collapse :
    (actions : List FilterAction)
    → has_some (collapse_message_filter_actions actions) ≡ any acts actions
unfolding collapse_message_filter_actions
has_some-collapse actions = has_some-collapse_from [] actions
