-- ===== src/Tags/Schema.antt =====
-- The schema of a stored tag (src/main/persisted-state.ts), beside `createMessageTag`.
use material_email.Prelude.{
  ℕ, zero, suc, ◌+◌, ◌/◌, ◌%◌, ◌≤◌, ◌<◌, ◌≡◌, refl, ap, Bool, true, false, ◌&&◌, ◌||◌, ◌⊎◌, inl,
  inr, some, List, [], ◌∷◌, ◌++◌, arith, leb, nat_beq, length, length-append, all, any, contains,
  Option-cases,
}
use material_email.Prelude.Text.{Text, text_eq, code_points, decimal, decimal_fuel}
use material_email.Runtime.{Unicode}
use material_email.Tags.Names.{
  MessageTag, name_limit, catalog_limit, is_colour, message_tag_id, first_free_suffix,
  unique_tag_id,
}
use material_email.Tags.Catalog.{ok, next_ordinal, create_message_tag}
use material_email.Tags.Catalogs.{created}
use material_email.Tags.Entries.{ids_of}

abbrev in_range : ℕ → ℕ → ℕ → Bool
in_range lo hi n = leb lo n && leb n hi

module _ (u : Unicode) where
  -- a code point of an identifier: a letter, a number or a dash
  abbrev is_id_point : ℕ → Bool
  is_id_point p = u.is_letter_number p || nat_beq p b'-'

  unfoldable pub message_tag_id_schema : Text → Bool
  unfolding code_points
  message_tag_id_schema id = in_range 1 name_limit (length id) && all is_id_point (code_points id)

  unfoldable pub message_tag_schema : MessageTag → Bool
  unfolding message_tag_id_schema
  message_tag_schema tag =
      message_tag_id_schema tag.id
      && in_range 1 name_limit (length tag.name)
      && is_colour 6 tag.colour
      && leb tag.ordinal catalog_limit

length-decimal_fuel : (f n : ℕ) → 1 ≤ length (decimal_fuel f n)
unfolding decimal_fuel
length-decimal_fuel zero n = omega arith
length-decimal_fuel (suc f) n =
    ground (arith, length-append (decimal_fuel f (n / 10)) ((n % 10 + 48) ∷ []))

length-suffixed :
    (candidate : Text) (n : ℕ) → length candidate + 2 ≤ length (candidate ++ b'-' ∷ decimal n)
unfolding decimal
length-suffixed candidate n =
    omega (arith, length-append candidate (b'-' ∷ decimal_fuel n n), length-decimal_fuel n n)

length-first_free_suffix :
    (candidate : Text) (taken : List Text) (rounds suffix : ℕ) (t : Text)
    → first_free_suffix candidate taken rounds suffix ≡ some t
    → length candidate + 2 ≤ length t
unfolding first_free_suffix
length-first_free_suffix candidate taken zero suffix t h = cc
length-first_free_suffix candidate taken (suc rounds) suffix t h = ground (
  arith,
  length-suffixed candidate suffix,
  length-first_free_suffix candidate taken rounds (suc suffix) t,
)

length-unique_tag_id :
    (candidate : Text) (taken : List Text)
    → contains taken candidate ≡ true
    → length candidate + 2 ≤ length (unique_tag_id candidate taken)
unfolding unique_tag_id
length-unique_tag_id candidate taken old =
    elim (Option-cases (first_free_suffix candidate taken catalog_limit 2)) [
      | inl missed ↦ rw (old, missed) (length-suffixed candidate _)
      | inr (t, found) ↦
          rw (old, found) (length-first_free_suffix candidate taken catalog_limit 2 t found)
    ]

next_ordinal-above_limit :
    (tags : List MessageTag)
    → any (λ t. leb catalog_limit t.ordinal) tags ≡ true
    → suc catalog_limit ≤ next_ordinal tags
unfolding next_ordinal
next_ordinal-above_limit [] h = cc
next_ordinal-above_limit (t ∷ tags) h = ground (arith, next_ordinal-above_limit tags)

and_false : (a : Bool) → (a && false) ≡ false
and_false true = refl
and_false false = refl

module _ (u : Unicode) (tag : MessageTag) where
  message_tag_schema-ordinal : catalog_limit < tag.ordinal → message_tag_schema u tag ≡ false
  unfolding message_tag_schema
  message_tag_schema-ordinal h =
      let out : leb tag.ordinal catalog_limit ≡ false = ground arith in rw (out, and_false)

  message_tag_schema-id : name_limit < length tag.id → message_tag_schema u tag ≡ false
  unfolding message_tag_schema
  message_tag_schema-id h =
      let out : leb (length tag.id) name_limit ≡ false = ground arith in rw (out, and_false)

-- A tag that `createMessageTag` makes is refused by the schema of the stored state wherever another
-- tag has reached the highest ordinal, or has the identifier that the name yields, of 63 units or
-- more.
pub create_message_tag-refused :
    (u : Unicode) (catalog : List MessageTag) (name colour : Text) (tag : MessageTag)
    → create_message_tag u catalog name colour ≡ ok tag
    → (any (λ t. leb catalog_limit t.ordinal) catalog ≡ true)
      ⊎ ((contains (ids_of catalog) (message_tag_id u tag.name) ≡ true)
          × (63 ≤ length (message_tag_id u tag.name)))
    → message_tag_schema u tag ≡ false
create_message_tag-refused u catalog name colour tag h (inl full) =
    let facts = created u catalog name colour tag h in
    message_tag_schema-ordinal u tag (omega (arith, next_ordinal-above_limit catalog full, facts.6))
create_message_tag-refused u catalog name colour tag h (inr (taken, long)) =
    let facts = created u catalog name colour tag h in
    message_tag_schema-id u tag (
      omega (
        arith,
        length-unique_tag_id (message_tag_id u tag.name) (ids_of catalog) taken,
        ap length facts.5,
        long,
      ))
