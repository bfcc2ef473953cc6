-- ===== src/Tags/Catalog.antt =====
-- src/shared/message-tags.ts: the catalog of tags, and the errors of its operations.
use material_email.Prelude.{
  ℕ, suc, Bool, true, false, not, ◌&&◌, Option, none, some, List, [], ◌∷◌, map, compare, min, max,
  leb, if◌then◌else◌, length, any, find?, sort, then_compare, Ordering, ℤ, pos, negsuc,
}
use material_email.Prelude.Text.{Text, text_beq, text_eq, is_empty}
use material_email.Runtime.{Unicode}
use material_email.Tags.Names.{
  MessageTag, catalog_limit, normalize_message_tag_name, normalize_message_tag_colour,
  message_tag_id, unique_tag_id,
}

-- The codes of `MessageTagError`.
pub data TagError : Type 0 where
  name_required colour_invalid limit_reached name_taken tag_not_found tag_built_in : TagError

pub data Result {ℓ} (A : Type ℓ) : Type ℓ where
  ok : A → Result A
  err : TagError → Result A

infixl 5 ◌>>=◌ ◌>>◌
abbrev pub ◌>>=◌ {ℓ κ} : {A : Type ℓ} {B : Type κ} → Result A → (A → Result B) → Result B
ok value >>= next = next value
err error >>= next = err error

abbrev pub ◌>>◌ {ℓ} : {B : Type ℓ} → Result (Unit {0}) → Result B → Result B
first >> second = first >>= λ _. second

-- `if (test) throw error`
abbrev pub throw_if : Bool → TagError → Result (Unit {0})
throw_if true e = err e
throw_if false e = ok tt

abbrev pub found_tag : Option MessageTag → Result MessageTag
found_tag none = err tag_not_found
found_tag (some tag) = ok tag

-- A number of a patch: an integer that `Number.isSafeInteger` accepts, or another value.
pub data PatchNumber : Type 0 where
  safe_integer : ℤ → PatchNumber
  other : PatchNumber

pub record TagPatch : Type 0 where
  pub name : Option Text
  pub colour : Option Text
  pub ordinal : Option PatchNumber

-- `Math.max(0, Math.min(MESSAGE_TAG_CATALOG_LIMIT, n))`, or the old value
abbrev pub patched_ordinal : ℕ → Option PatchNumber → ℕ
patched_ordinal old none = old
patched_ordinal old (some other) = old
patched_ordinal old (some (safe_integer (pos n))) = min catalog_limit n
patched_ordinal old (some (safe_integer (negsuc n))) = 0

-- One more than the highest ordinal, which counts as -1 in an empty catalog.
unfoldable pub next_ordinal : List MessageTag → ℕ
next_ordinal [] = 0
next_ordinal (tag ∷ tags) = max (suc tag.ordinal) (next_ordinal tags)

abbrev pub has_id : Text → MessageTag → Bool
has_id id tag = text_beq tag.id id

module _ (u : Unicode) where
  abbrev pub compare_tags : MessageTag → MessageTag → Ordering
  compare_tags left right =
      then_compare (compare left.ordinal right.ordinal)
        (then_compare (u.locale_compare left.name right.name) (u.locale_compare left.id right.id))

  unfoldable pub sort_message_tags : List MessageTag → List MessageTag
  sort_message_tags tags = sort compare_tags tags

  unfoldable pub assert_name : Text → Result Text
  assert_name name =
      let normalized = normalize_message_tag_name u name in
      if is_empty normalized then err name_required else ok normalized

  abbrev assert_some : Option Text → Result Text
  assert_some none = err colour_invalid
  assert_some (some colour) = ok colour

  unfoldable pub assert_colour : Text → Result Text
  assert_colour colour = assert_some (normalize_message_tag_colour u colour)

  -- another tag, under another identifier than the excepted one, with the same folded name
  abbrev pub clashes : Text → Option Text → MessageTag → Bool
  clashes folded none tag = text_beq (u.lower tag.name) folded
  clashes folded (some except_id) tag =
      not (text_beq tag.id except_id) && text_beq (u.lower tag.name) folded

  unfoldable pub assert_name_available : List MessageTag → Text → Option Text → Result (Unit {0})
  assert_name_available catalog name except_id =
      throw_if (any (clashes (u.lower name) except_id) catalog) name_taken

  unfoldable pub create_message_tag : List MessageTag → Text → Text → Result MessageTag
  unfolding assert_name assert_colour assert_name_available
  create_message_tag catalog input_name input_colour = do
    throw_if (leb catalog_limit (length catalog)) limit_reached
    name ← assert_name input_name
    assert_name_available catalog name none
    colour ← assert_colour input_colour
    ok (record {
      id = unique_tag_id (message_tag_id u name) (map (λ tag. tag.id) catalog);
      name = name;
      colour = colour;
      ordinal = next_ordinal catalog;
      built_in = false;
    })

  abbrev pub patched_name : MessageTag → Option Text → Result Text
  patched_name existing none = ok existing.name
  patched_name existing (some name) = assert_name name

  abbrev pub patched_name_available :
      List MessageTag → Text → Option Text → Text → Result (Unit {0})
  patched_name_available catalog name none id = ok tt
  patched_name_available catalog name (some _) id = assert_name_available catalog name (some id)

  abbrev pub patched_colour : MessageTag → Option Text → Result Text
  patched_colour existing none = ok existing.colour
  patched_colour existing (some colour) = assert_colour colour

  -- the tag that `map` puts in place of `tag`
  abbrev pub replaced : Text → Text → Text → ℕ → MessageTag → MessageTag
  replaced id name colour ordinal tag =
      if has_id id tag then record tag { name = name; colour = colour; ordinal = ordinal } else tag

  unfoldable pub update_message_tag : List MessageTag → Text → TagPatch → Result (List MessageTag)
  unfolding sort_message_tags assert_name assert_colour assert_name_available
  update_message_tag catalog id patch = do
    existing ← found_tag (find? (has_id id) catalog)
    name ← patched_name existing patch.name
    patched_name_available catalog name patch.name id
    colour ← patched_colour existing patch.colour
    let ordinal = patched_ordinal existing.ordinal patch.ordinal
    ok (sort_message_tags (map (replaced id name colour ordinal) catalog))
