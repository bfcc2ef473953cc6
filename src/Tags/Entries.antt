-- ===== src/Tags/Entries.antt =====
-- The well-formed entries of a tag state (src/shared/message-tags.ts), and writes of them.
use material_email.Prelude.{
  ℕ, zero, suc, ◌-◌, ◌≤◌, ◌≡◌, ◌≢◌, refl, Bool, true, false, some, List, [], ◌∷◌, map, arith, leb,
  length, length-drop, drop, filter, contains, All, All-filter, AllPairs, Bool-cases, inl, inr,
}
use material_email.Prelude.Text.{Text, text_beq, text_eq}
use material_email.Mail.{Object, lookup, HasDistinctKeys}
use material_email.Mail.Objects.{
  All-insert, All-erase, insert-HasDistinctKeys, erase-HasDistinctKeys,
}
use material_email.Tags.Names.{MessageTag, tags_per_message_limit, assignment_limit}
use material_email.Tags.Assignments.{bound_assignments, is_nil, set_or_delete}

abbrev pub ids_of : List MessageTag → List Text
ids_of = map (λ tag. tag.id)

module _ {ℓ κ} {A : Type ℓ} (P : A → Type κ) where
  All-drop : (n : ℕ) (xs : List A) → All P xs → All P (drop n xs)
  All-drop zero xs h = h
  All-drop (suc n) [] h = tt
  All-drop (suc n) (x ∷ xs) (h, hs) = All-drop n xs hs

module _ {ℓ} {V : Type ℓ} where
  drop-HasDistinctKeys : (n : ℕ) (m : Object V) → HasDistinctKeys m → HasDistinctKeys (drop n m)
  drop-HasDistinctKeys zero m h = h
  drop-HasDistinctKeys (suc n) [] h = tt
  drop-HasDistinctKeys (suc n) ((k, v) ∷ m) (d, h) = drop-HasDistinctKeys n m h

  pub filter-HasDistinctKeys :
      (p : Text × V → Bool) (m : Object V) → HasDistinctKeys m → HasDistinctKeys (filter p m)
  filter-HasDistinctKeys p [] h = tt
  filter-HasDistinctKeys p ((k, v) ∷ m) (d, h) = elim (Bool-cases (p (k, v))) [
    | inl e ↦ rw e (All-filter (λ x. x.0 ≢ k) p m d, filter-HasDistinctKeys p m h)
    | inr e ↦ rw e (filter-HasDistinctKeys p m h)
  ]

  pub lookup-All {κ} :
      (P : Text × V → Type κ) (k : Text) (v : V) (m : Object V)
      → ((j : Text) → P (j, v) → P (k, v))
      → All P m
      → lookup k m ≡ some v
      → P (k, v)
  unfolding lookup
  lookup-All P k v [] any_key a h = absurd (cc)
  lookup-All P k v ((i, w) ∷ m) any_key (p, a) h = elim (Bool-cases (text_beq i k)) [
    | inl same ↦ any_key i (at_value (ground arith) p)
    | inr other ↦ lookup-All P k v m any_key a (rw other at h)
  ]
    where
      at_value : w ≡ v → P (i, w) → P (i, v)
      at_value q p = rw q at p

-- What an assignment lists: some identifiers of the catalog, no more than the limit, none twice.
abbrev pub IsTagList : List MessageTag → List Text → Type 0
IsTagList catalog ids =
    (is_nil ids ≡ false)
    × (length ids ≤ tags_per_message_limit)
    × All (λ id. contains (ids_of catalog) id ≡ true) ids
    × AllPairs (λ a b. b ≢ a) ids

abbrev pub IsEntry : List MessageTag → Text × List Text → Type 0
IsEntry catalog entry = IsTagList catalog entry.1

pub record IsAssignments (catalog : List MessageTag) (m : Object (List Text)) : Type 0 where
  pub bounded : length m ≤ assignment_limit
  pub distinct : HasDistinctKeys m
  pub entries : All (IsEntry catalog) m

pub bound_assignments-IsAssignments :
    (catalog : List MessageTag) (m : Object (List Text))
    → HasDistinctKeys m
    → All (IsEntry catalog) m
    → IsAssignments catalog (bound_assignments m)
unfolding bound_assignments
bound_assignments-IsAssignments catalog m d a =
    elim (Bool-cases (leb (length m) assignment_limit)) [
      | inl fits ↦ rw fits (record { bounded = ground arith; distinct = d; entries = a })
      | inr large ↦ rw large (record {
        bounded = omega (arith, length-drop (length m - assignment_limit) m);
        distinct = drop-HasDistinctKeys (length m - assignment_limit) m d;
        entries = All-drop (IsEntry catalog) (length m - assignment_limit) m a;
      })
    ]

-- the entries that an operation writes
pub set_or_delete-entries :
    (catalog : List MessageTag) (k : Text) (ids : List Text) (m : Object (List Text))
    → (is_nil ids ≡ false → IsTagList catalog ids)
    → All (IsEntry catalog) m
    → All (IsEntry catalog) (set_or_delete k ids m)
set_or_delete-entries catalog k [] m valid a = All-erase (IsEntry catalog) k m a
set_or_delete-entries catalog k (id ∷ ids) m valid a =
    All-insert (IsEntry catalog) k (id ∷ ids) m (valid refl) a

pub set_or_delete-HasDistinctKeys :
    (k : Text) (ids : List Text) (m : Object (List Text))
    → HasDistinctKeys m
    → HasDistinctKeys (set_or_delete k ids m)
set_or_delete-HasDistinctKeys k [] m h = erase-HasDistinctKeys k m h
set_or_delete-HasDistinctKeys k (id ∷ ids) m h = insert-HasDistinctKeys k (id ∷ ids) m h
