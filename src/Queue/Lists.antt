-- ===== src/Queue/Lists.antt =====
-- Lists of items with keys of their own, of which some belong to one account: taking away or
-- changing the first of them.
use material_email.Prelude.{
  ◌≡◌, ◌≢◌, refl, sym, ap, subst, Bool, true, false, not, some, List, [], ◌∷◌, arith, filter, find?,
  All, All-filter, AllPairs, Bool-cases, inl, inr,
}
use material_email.Prelude.Text.{Text, text_beq, text_beq_iff, text_beq_refl}
use material_email.Queue.Heads.{update_first}

module _ {A : Type 0} (key : A → Text) where
  abbrev pub HasDistinctKeys : List A → Type 0
  HasDistinctKeys = AllPairs (λ x y. key y ≢ key x)

  abbrev has_key : Text → A → Bool
  has_key k x = text_beq (key x) k

  absent-filter :
      (k : Text) (l : List A) → All (λ y. key y ≢ k) l → filter (λ y. not (has_key k y)) l ≡ l
  absent-filter k [] h = refl
  absent-filter k (y ∷ l) (h, hs) = ground (arith, text_beq_iff (key y) k, absent-filter k l hs)

  module _ (mine : A → Bool) where
    -- The first of an account's items stands apart from an item that is not the account's.
    apart :
        (x y : A) (xs l : List A)
        → All (λ z. key z ≢ key y) l
        → filter mine l ≡ x ∷ xs
        → key x ≢ key y
    apart x y xs l d e =
        (subst (All (λ z. key z ≢ key y)) e (All-filter (λ z. key z ≢ key y) mine l d)).0

    pub find?-first :
        (x : A) (xs l : List A)
        → HasDistinctKeys l
        → filter mine l ≡ x ∷ xs
        → find? (has_key (key x)) l ≡ some x
    find?-first x xs [] d e = absurd (cc)
    find?-first x xs (y ∷ l) (d, ds) e = elim (Bool-cases (mine y)) [
      | inl ours ↦
          let same : y ≡ x = ground arith in
          subst (λ z. find? (has_key (key z)) (y ∷ l) ≡ some z) same
            (rw (text_beq_refl (key y)) refl)
      | inr other ↦
          let rest : filter mine l ≡ x ∷ xs = rw other at e in
          ground
            (arith, text_beq_iff (key y) (key x), apart x y xs l d rest, find?-first x xs l ds rest)
    ]

    pub filter-without_first :
        (x : A) (xs l : List A)
        → HasDistinctKeys l
        → filter mine l ≡ x ∷ xs
        → (filter mine (filter (λ y. not (has_key (key x) y)) l) ≡ xs)
          × (filter (λ y. not (mine y)) (filter (λ y. not (has_key (key x) y)) l)
              ≡ filter (λ y. not (mine y)) l)
    filter-without_first x xs [] d e = absurd (cc)
    filter-without_first x xs (y ∷ l) (d, ds) e = elim (Bool-cases (mine y)) [
      | inl ours ↦
          let parts : y ∷ filter mine l ≡ x ∷ xs = rw ours at e in
          let same : y ≡ x = ground arith in
          let rest : filter mine l ≡ xs = ground arith in
          subst
            (λ z.
              (filter mine (filter (λ w. not (has_key (key z) w)) (y ∷ l)) ≡ xs)
              × (filter (λ w. not (mine w)) (filter (λ w. not (has_key (key z) w)) (y ∷ l))
                  ≡ filter (λ w. not (mine w)) (y ∷ l)))
            same (rw (text_beq_refl (key y), absent-filter (key y) l d, ours) (rest, refl))
      | inr other ↦
          let rest : filter mine l ≡ x ∷ xs = rw other at e in
          let (p, q) = filter-without_first x xs l ds rest in
          let differs : text_beq (key y) (key x) ≡ false =
            ground (arith, text_beq_iff (key y) (key x), apart x y xs l d rest) in
          rw (differs, other) (p, ap (λ k. y ∷ k) q)
    ]

    pub filter-update_first :
        (x : A) (f : A → A) (xs l : List A)
        → HasDistinctKeys l
        → filter mine l ≡ x ∷ xs
        → mine (f x) ≡ true
        → (filter mine (update_first (has_key (key x)) f l) ≡ f x ∷ xs)
          × (filter (λ y. not (mine y)) (update_first (has_key (key x)) f l)
              ≡ filter (λ y. not (mine y)) l)
    unfolding update_first
    filter-update_first x f xs [] d e m = absurd (cc)
    filter-update_first x f xs (y ∷ l) (d, ds) e m = elim (Bool-cases (mine y)) [
      | inl ours ↦
          let parts : y ∷ filter mine l ≡ x ∷ xs = rw ours at e in
          let same : x ≡ y = ground arith in
          let rest : filter mine l ≡ xs = ground arith in
          let kept : mine (f y) ≡ true = subst (λ z. mine (f z) ≡ true) same m in
          subst
            (λ z.
              (filter mine (update_first (has_key (key z)) f (y ∷ l)) ≡ f z ∷ xs)
              × (filter (λ w. not (mine w)) (update_first (has_key (key z)) f (y ∷ l))
                  ≡ filter (λ w. not (mine w)) (y ∷ l)))
            (sym same) (rw (text_beq_refl (key y), ours, kept) (ap (λ k. f y ∷ k) rest, refl))
      | inr other ↦
          let rest : filter mine l ≡ x ∷ xs = rw other at e in
          let (p, q) = filter-update_first x f xs l ds rest m in
          let differs : text_beq (key y) (key x) ≡ false =
            ground (arith, text_beq_iff (key y) (key x), apart x y xs l d rest) in
          rw (differs, other) (p, ap (λ k. y ∷ k) q)
    ]
