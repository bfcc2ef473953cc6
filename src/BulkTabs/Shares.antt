-- ===== src/BulkTabs/Shares.antt =====
-- How the tabs that a search closes and leaves out make up the candidates
-- (src/renderer/lib/bulk-tab-close.ts).
use material_email.Prelude.{
  ◌≡◌, refl, Bool, true, false, not, ◌&&◌, ◌||◌, List, [], ◌∷◌, ◌++◌, map, filter, arith, inl, inr,
  Bool-cases, if◌then◌else◌, Perm,
}
use mathlib.Core.List.Perm
use mathlib.Core.List.{perm_middle}
use material_email.BulkTabs.{TabCandidate, BulkTabCloseEvaluation, tab_id, is_free}

-- What a search closes and leaves out, in the order of the candidates: of the tabs that it selects it
-- closes those that are not pinned, or all where pinned tabs are included, and leaves out the others.
pub record IsShare (selected : TabCandidate → Bool) (include_pinned : Bool)
    (candidates : List TabCandidate) (result : BulkTabCloseEvaluation) : Type 0 where
  pub closed :
      result.tab_ids
      ≡ map tab_id (filter (λ c. selected c && (include_pinned || not c.pinned)) candidates)
  pub left_out :
      result.excluded_pinned_ids
      ≡ map tab_id (filter (λ c. selected c && (not include_pinned && c.pinned)) candidates)

pub closed-eq :
    (selected : TabCandidate → Bool) (include_pinned : Bool) (candidates : List TabCandidate)
    → map tab_id (filter (is_free include_pinned) (filter selected candidates))
      ≡ map tab_id (filter (λ c. selected c && (include_pinned || not c.pinned)) candidates)
closed-eq selected include_pinned [] = refl
closed-eq selected include_pinned (c ∷ candidates) =
    ground (arith, closed-eq selected include_pinned candidates)

pub left_out-eq :
    (selected : TabCandidate → Bool) (include_pinned : Bool) (candidates : List TabCandidate)
    → (if include_pinned
        then []
        else map tab_id (filter (λ (c : TabCandidate). c.pinned) (filter selected candidates)))
      ≡ map tab_id (filter (λ c. selected c && (not include_pinned && c.pinned)) candidates)
left_out-eq selected include_pinned [] = ground arith
left_out-eq selected include_pinned (c ∷ candidates) =
    ground (arith, left_out-eq selected include_pinned candidates)

-- A test divides the tabs.
divided :
    (p : TabCandidate → Bool) (candidates : List TabCandidate)
    → Perm
        (map tab_id (filter p candidates) ++ map tab_id (filter (λ c. not (p c)) candidates))
        (map tab_id candidates)
divided p [] = Perm.refl _
divided p (c ∷ candidates) = elim (Bool-cases (p c)) [
  | inl yes_ ↦ rw yes_ (Perm.cons (tab_id c) (divided p candidates))
  | inr no_ ↦ rw no_ (
      Perm.trans
        (perm_middle (map tab_id (filter p candidates))
          (map tab_id (filter (λ d. not (p d)) candidates)))
        (Perm.cons (tab_id c) (divided p candidates)))
]

selected_divided :
    (selected : TabCandidate → Bool) (include_pinned : Bool) (candidates : List TabCandidate)
    → Perm
        (map tab_id (filter (λ c. selected c && (include_pinned || not c.pinned)) candidates)
          ++ map tab_id (filter (λ c. selected c && (not include_pinned && c.pinned)) candidates))
        (map tab_id (filter selected candidates))
selected_divided selected include_pinned [] = Perm.refl _
selected_divided selected include_pinned (c ∷ candidates) = elim (Bool-cases (selected c)) [
  | inr other ↦ rw other (selected_divided selected include_pinned candidates)
  | inl mine ↦ elim (Bool-cases (include_pinned || not c.pinned)) [
    | inl free ↦
        let kept : (not include_pinned && c.pinned) ≡ false = ground arith in
        rw (mine, free, kept)
          (Perm.cons (tab_id c) (selected_divided selected include_pinned candidates))
    | inr pinned ↦
        let kept : (not include_pinned && c.pinned) ≡ true = ground arith in
        rw (mine, pinned, kept)
          (Perm.trans (perm_middle _ _)
            (Perm.cons (tab_id c) (selected_divided selected include_pinned candidates)))
  ]
]

-- The shares of a test and of its opposite are the candidates.
pub IsShare-all :
    (selected : TabCandidate → Bool) (include_pinned : Bool) (candidates : List TabCandidate)
    (first second : BulkTabCloseEvaluation)
    → IsShare selected include_pinned candidates first
    → IsShare (λ c. not (selected c)) include_pinned candidates second
    → Perm
        ((first.tab_ids ++ first.excluded_pinned_ids)
          ++ (second.tab_ids ++ second.excluded_pinned_ids))
        (map tab_id candidates)
IsShare-all selected include_pinned candidates first second h k =
    rw (h.closed, h.left_out, k.closed, k.left_out)
      (Perm.trans
        (Perm.append (selected_divided selected include_pinned candidates)
          (selected_divided (λ c. not (selected c)) include_pinned candidates))
        (divided selected candidates))
