-- ===== src/Mail/Objects.antt =====
-- Objects used as maps: `record[key]`, `record[key] = value`, `delete record[key]`.
use material_email.Prelude.{
  ◌+◌, ◌≤◌, ◌≡◌, refl, Option, none, some, List, [], ◌∷◌, arith, if◌then◌else◌, length, All,
  Bool-cases, inl, inr, ◌≢◌,
}
use material_email.Prelude.Text.{Text, text_beq, text_beq_iff}

abbrev pub Object {ℓ} : Type ℓ → Type ℓ
Object V = List (Text × V)

module _ {ℓ} {V : Type ℓ} where
  unfoldable pub lookup : Text → Object V → Option V
  lookup k [] = none
  lookup k ((name, value) ∷ entries) = if text_beq name k then some value else lookup k entries

  -- A write to a present key keeps its place; a new key goes to the end.
  unfoldable pub insert : Text → V → Object V → Object V
  insert k v [] = (k, v) ∷ []
  insert k v ((j, w) ∷ m) =
      let rest = insert k v m in if text_beq j k then (k, v) ∷ m else (j, w) ∷ rest

  unfoldable pub erase : Text → Object V → Object V
  erase k [] = []
  erase k ((j, v) ∷ m) = let rest = erase k m in if text_beq j k then rest else (j, v) ∷ rest

  abbrev pub key : Text × V → Text
  key entry = entry.0

  -- No key stands twice, as in every object.
  abbrev pub HasDistinctKeys : Object V → Type 0
  HasDistinctKeys [] = Unit
  HasDistinctKeys ((k, v) ∷ m) = All (λ e. e.0 ≢ k) m × HasDistinctKeys m

module _ {ℓ} {V : Type ℓ} where
  pub lookup-insert :
      (k j : Text) (v : V) (m : Object V)
      → lookup j (insert k v m) ≡ (if text_beq k j then some v else lookup j m)
  unfolding lookup insert
  lookup-insert k j v [] = refl
  lookup-insert k j v ((i, w) ∷ m) =
      ground (arith, text_beq_iff k j, text_beq_iff i k, text_beq_iff i j, lookup-insert k j v m)

  pub lookup-erase :
      (k j : Text) (m : Object V)
      → lookup j (erase k m) ≡ (if text_beq k j then none else lookup j m)
  unfolding lookup erase
  lookup-erase k j [] = ground arith
  lookup-erase k j ((i, w) ∷ m) =
      ground (arith, text_beq_iff k j, text_beq_iff i k, text_beq_iff i j, lookup-erase k j m)

  pub length-insert : (k : Text) (v : V) (m : Object V) → length (insert k v m) ≤ length m + 1
  unfolding insert
  length-insert k v [] = omega arith
  length-insert k v ((i, w) ∷ m) = ground (arith, length-insert k v m)

  -- A key that is present already takes no new room.
  pub length-insert_of_present :
      (k : Text) (v w : V) (m : Object V) → lookup k m ≡ some w → length (insert k v m) ≡ length m
  unfolding insert lookup
  length-insert_of_present k v w [] h = cc
  length-insert_of_present k v w ((i, u) ∷ m) h = ground (arith, length-insert_of_present k v w m)

  pub length-erase : (k : Text) (m : Object V) → length (erase k m) ≤ length m
  unfolding erase
  length-erase k [] = omega arith
  length-erase k ((i, w) ∷ m) = ground (arith, length-erase k m)

module _ {ℓ κ} {V : Type ℓ} (P : Text × V → Type κ) where
  pub All-insert : (k : Text) (v : V) (m : Object V) → P (k, v) → All P m → All P (insert k v m)
  unfolding insert
  All-insert k v [] p h = (p, tt)
  All-insert k v ((i, w) ∷ m) p (q, h) = elim (Bool-cases (text_beq i k)) [
    | inl e ↦ rw e (p, h)
    | inr e ↦ rw e (q, All-insert k v m p h)
  ]

  pub All-erase : (k : Text) (m : Object V) → All P m → All P (erase k m)
  unfolding erase
  All-erase k [] h = tt
  All-erase k ((i, w) ∷ m) (q, h) = elim (Bool-cases (text_beq i k)) [
    | inl e ↦ rw e (All-erase k m h)
    | inr e ↦ rw e (q, All-erase k m h)
  ]

module _ {ℓ} {V : Type ℓ} where
  pub insert-HasDistinctKeys :
      (k : Text) (v : V) (m : Object V) → HasDistinctKeys m → HasDistinctKeys (insert k v m)
  unfolding insert
  insert-HasDistinctKeys k v [] h = (tt, tt)
  insert-HasDistinctKeys k v ((i, w) ∷ m) (d, h) = elim (Bool-cases (text_beq i k)) [
    | inl e ↦ rw e (rw (← (text_beq_iff i k).0 e) d, h)
    | inr e ↦ rw e (
      All-insert (λ x. x.0 ≢ i) k v m (λ p. ground (arith, text_beq_iff i k)) d,
      insert-HasDistinctKeys k v m h,
    )
  ]

  pub erase-HasDistinctKeys :
      (k : Text) (m : Object V) → HasDistinctKeys m → HasDistinctKeys (erase k m)
  unfolding erase
  erase-HasDistinctKeys k [] h = tt
  erase-HasDistinctKeys k ((i, w) ∷ m) (d, h) = elim (Bool-cases (text_beq i k)) [
    | inl e ↦ rw e (erase-HasDistinctKeys k m h)
    | inr e ↦ rw e (All-erase (λ x. x.0 ≢ i) k m d, erase-HasDistinctKeys k m h)
  ]
