-- ===== src/Queue/Draining.antt =====
-- A queue that is worked off from its head, and what it has left: the abstract view of the loops of
-- `#replayPending` (src/main/app-service.ts).
use material_email.Prelude.{
  ℕ, suc, ◌≡◌, refl, ap, Bool, false, Option, none, some, List, [], ◌∷◌, drop, map, All, Bool-cases,
  Option-cases, inl, inr, if◌then◌else◌,
}
use material_email.Prelude.Text.{Text}

module _ {A : Type 0} (stops : A → Bool) (try : A → Option Text) (fail : Text → A → A) where
  -- what is left when the head is tried: nothing of it, or the head with its failure
  abbrev pub left_of : A → List A → List A → Option Text → List A
  left_of x xs rest none = rest
  left_of x xs rest (some error) = fail error x ∷ xs

  -- Heads are taken off as long as they are not to be stopped at and do not fail.
  unfoldable pub drain : List A → List A
  drain [] = []
  drain (x ∷ xs) = let rest = drain xs in if stops x then x ∷ xs else left_of x xs rest (try x)

  -- What every item has, and a failed one still has unless it stops the queue, is kept.
  pub drain-All :
      (P : A → Type 0)
      → ((e : Text) (x : A) → stops x ≡ false → P x → P (fail e x))
      → (xs : List A) → All P xs
      → All P (drain xs)
  unfolding drain
  drain-All P keep [] h = tt
  drain-All P keep (x ∷ xs) (h, hs) = elim (Bool-cases (stops x)) [
    | inl stop ↦ rw stop (h, hs)
    | inr go ↦ elim (Option-cases (try x)) [
      | inl success ↦ rw (go, success) (drain-All P keep xs hs)
      | inr (e, error) ↦ rw (go, error) (keep e x go h, hs)
    ]
  ]

  -- Where nothing stops and nothing fails, the queue is emptied.
  pub drain-empties :
      (xs : List A) → All (λ x. (stops x ≡ false) × (try x ≡ none)) xs → drain xs ≡ []
  unfolding drain
  drain-empties [] h = refl
  drain-empties (x ∷ xs) ((go, success), hs) = rw (go, success) (drain-empties xs hs)

  -- how many heads are taken off
  abbrev taken_of : ℕ → Option Text → ℕ
  taken_of rest none = suc rest
  taken_of rest (some error) = 0

  unfoldable pub taken : List A → ℕ
  taken [] = 0
  taken (x ∷ xs) = let rest = taken xs in if stops x then 0 else taken_of rest (try x)

  -- Under a name that a failure keeps, what is left is what stood behind the heads taken off.
  pub map-drain :
      {B : Type 0} (name : A → B)
      → ((e : Text) (x : A) → name (fail e x) ≡ name x)
      → (xs : List A) → map name (drain xs) ≡ drop (taken xs) (map name xs)
  unfolding drain taken
  map-drain name same [] = refl
  map-drain name same (x ∷ xs) = elim (Bool-cases (stops x)) [
    | inl stop ↦ rw stop refl
    | inr go ↦ elim (Option-cases (try x)) [
      | inl success ↦ rw (go, success) (map-drain name same xs)
      | inr (e, error) ↦ rw (go, error) (ap (λ n. n ∷ map name xs) (same e x))
    ]
  ]
