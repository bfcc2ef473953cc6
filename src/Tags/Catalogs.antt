-- ===== src/Tags/Catalogs.antt =====
-- The well-formed tag catalogs of src/shared/message-tags.ts and new tags in them.
use material_email.Prelude.{
  ◌≤◌, ◌<◌, ◌≡◌, ◌≢◌, sym, Bool, true, false, none, some, List, [], ◌∷◌, ◌++◌, arith, length,
  length-append, length-map, length-filter, length-sort, length-take, contains, All, AllPairs, map,
  All-filter, All-append, All-sort, AllPairs-filter, AllPairs-concat, AllPairs-sort, All-map,
  filter, any,
}
use material_email.Prelude.Text.{trim, Text, text_beq_iff, is_empty, text_eq}
use material_email.Runtime.{Unicode}
use material_email.Tags.Names.{
  MessageTag, collapse_spaces, name_limit, catalog_limit, is_colour, normalize_message_tag_name,
  normalize_message_tag_colour, message_tag_id, unique_tag_id,
}
use material_email.Tags.Catalog.{
  ok, next_ordinal, clashes, sort_message_tags, compare_tags, assert_name, assert_colour,
  assert_name_available, create_message_tag,
}
use material_email.Tags.Fresh.{unique_tag_id_fresh}

next_ordinal_above : (tags : List MessageTag) → All (λ t. t.ordinal < next_ordinal tags) tags
unfolding next_ordinal
next_ordinal_above [] = tt
next_ordinal_above (t ∷ tags) = (
  omega arith,
  All-map (λ (s : MessageTag) (h : s.ordinal < next_ordinal tags). omega arith) tags
      (next_ordinal_above tags),
)

abbrev pub ids : List MessageTag → List Text
ids = map (λ tag. tag.id)

fresh_id :
    (tags : List MessageTag) (id : Text)
    → contains (ids tags) id ≡ false
    → All (λ t. id ≢ t.id) tags
fresh_id [] id h = tt
fresh_id (t ∷ tags) id h =
    (λ p. ground (arith, text_beq_iff t.id id), fresh_id tags id (ground arith))

module _ (u : Unicode) where
  abbrev pub IsTag : MessageTag → Type 0
  IsTag t = (is_empty t.name ≡ false) × (length t.name ≤ name_limit) × (is_colour 6 t.colour ≡ true)

  -- Two tags have different identifiers and names that differ after folding.
  abbrev pub Differ : MessageTag → MessageTag → Type 0
  Differ s t = (t.id ≢ s.id) × (u.lower t.name ≢ u.lower s.name)

  pub record IsCatalog (tags : List MessageTag) : Type 0 where
    pub bounded : length tags ≤ catalog_limit
    pub differ : AllPairs Differ tags
    pub entries : All IsTag tags

  length-normalize_message_tag_name :
      (s : Text) → length (normalize_message_tag_name u s) ≤ name_limit
  unfolding normalize_message_tag_name
  length-normalize_message_tag_name s =
      omega (arith, length-take name_limit (trim (collapse_spaces false (u.nfkc s))))

  -- A normalised colour is a number sign and six lower-case hexadecimal digits.
  pub normalize_message_tag_colour-is_colour :
      (s c : Text) → normalize_message_tag_colour u s ≡ some c → is_colour 6 c ≡ true
  unfolding normalize_message_tag_colour
  normalize_message_tag_colour-is_colour s c h = ground arith

  pub assert_name-valid :
      (s name : Text)
      → assert_name u s ≡ ok name
      → (is_empty name ≡ false) × (length name ≤ name_limit)
  unfolding assert_name
  assert_name-valid s name h = ground (arith, length-normalize_message_tag_name s)

  pub assert_colour-valid : (s c : Text) → assert_colour u s ≡ ok c → is_colour 6 c ≡ true
  unfolding assert_colour
  assert_colour-valid s c h = ground (arith, normalize_message_tag_colour-is_colour s c)

  create-clash :
      (catalog : List MessageTag) (name colour : Text) (tag : MessageTag)
      → create_message_tag u catalog name colour ≡ ok tag
      → any (clashes u (u.lower tag.name) none) catalog ≡ false
  unfolding create_message_tag assert_name assert_colour assert_name_available
  create-clash catalog name colour tag h = ground arith

  -- What `createMessageTag` returns, on success.
  pub record IsNewTag (catalog : List MessageTag) (name colour : Text) (tag : MessageTag)
      : Type 0 where
    pub room : length catalog < catalog_limit
    pub normal_name : tag.name ≡ normalize_message_tag_name u name
    pub normal_colour : normalize_message_tag_colour u colour ≡ some tag.colour
    pub valid : IsTag tag
    pub differs : All (λ t. Differ t tag) catalog
    pub last : All (λ t. t.ordinal < tag.ordinal) catalog
    pub custom : tag.built_in ≡ false

  differs_from_All :
      (catalog : List MessageTag) (tag : MessageTag)
      → contains (ids catalog) tag.id ≡ false
      → any (clashes u (u.lower tag.name) none) catalog ≡ false
      → All (λ t. Differ t tag) catalog
  differs_from_All [] tag h k = tt
  differs_from_All (t ∷ catalog) tag h k = (
    (
      (λ p. ground (arith, text_beq_iff t.id tag.id)),
      (λ p. ground (arith, text_beq_iff (u.lower t.name) (u.lower tag.name))),
    ),
    differs_from_All catalog tag (ground arith) (ground arith),
  )

  pub created :
      (catalog : List MessageTag) (name colour : Text) (tag : MessageTag)
      → create_message_tag u catalog name colour ≡ ok tag
      → (length catalog < catalog_limit)
        × (is_empty tag.name ≡ false)
        × (tag.name ≡ normalize_message_tag_name u name)
        × (any (clashes u (u.lower tag.name) none) catalog ≡ false)
        × (normalize_message_tag_colour u colour ≡ some tag.colour)
        × (tag.id ≡ unique_tag_id (message_tag_id u tag.name) (ids catalog))
        × (tag.ordinal ≡ next_ordinal catalog)
        × (tag.built_in ≡ false)
  unfolding create_message_tag
  created catalog name colour tag h = ground arith

  -- On success the catalog has room, the tag has the normalised name and colour, which are valid,
  -- its identifier and its folded name are those of no other tag, and its ordinal is above all.
  pub create_message_tag-IsNewTag :
      (catalog : List MessageTag) (name colour : Text) (tag : MessageTag)
      → create_message_tag u catalog name colour ≡ ok tag
      → IsNewTag catalog name colour tag
  create_message_tag-IsNewTag catalog name colour tag h =
      let (room, nonempty, named, unclashed, coloured, identified, numbered, custom) =
        created catalog name colour tag h in
      let fresh : contains (ids catalog) tag.id ≡ false = rw identified (
        unique_tag_id_fresh (message_tag_id u tag.name) (ids catalog)
          (omega (arith, length-map (λ (t : MessageTag). t.id) catalog))) in
      record {
        room = room;
        normal_name = named;
        normal_colour = coloured;
        valid = (
          nonempty,
          rw named (length-normalize_message_tag_name name),
          normalize_message_tag_colour-is_colour colour tag.colour coloured,
        );
        differs = differs_from_All catalog tag fresh unclashed;
        last = rw numbered (next_ordinal_above catalog);
        custom = custom;
      }

  pub Differ-symm : (s t : MessageTag) → Differ s t → Differ t s
  Differ-symm s t (p, q) = ((λ e. p (sym e)), (λ e. q (sym e)))

  -- What is sorted into the catalog keeps the invariant.
  pub sort_message_tags-IsCatalog :
      (tags : List MessageTag) → IsCatalog tags → IsCatalog (sort_message_tags u tags)
  unfolding sort_message_tags
  sort_message_tags-IsCatalog tags c = record {
    bounded = omega (arith, length-sort (compare_tags u) tags, c.bounded);
    differ = AllPairs-sort Differ (compare_tags u) Differ-symm tags c.differ;
    entries = All-sort (compare_tags u) IsTag tags c.entries;
  }

  -- A well-formed catalog stays well formed when a tag that was made for it takes its place in it.
  pub add-IsCatalog :
      (catalog : List MessageTag) (name colour : Text) (tag : MessageTag)
      → IsCatalog catalog
      → create_message_tag u catalog name colour ≡ ok tag
      → IsCatalog (sort_message_tags u (catalog ++ tag ∷ []))
  add-IsCatalog catalog name colour tag c h =
      let new = create_message_tag-IsNewTag catalog name colour tag h in
      sort_message_tags-IsCatalog (catalog ++ tag ∷ []) (record {
        bounded = omega (arith, length-append catalog (tag ∷ []), new.room);
        differ = AllPairs-concat Differ catalog tag c.differ new.differs;
        entries = All-append IsTag catalog (tag ∷ []) c.entries (new.valid, tt);
      })

  -- So is the catalog without the tags that fail a test.
  pub filter-IsCatalog :
      (p : MessageTag → Bool) (catalog : List MessageTag)
      → IsCatalog catalog
      → IsCatalog (filter p catalog)
  filter-IsCatalog p catalog c = record {
    bounded = omega (arith, length-filter p catalog, c.bounded);
    differ = AllPairs-filter Differ p catalog c.differ;
    entries = All-filter IsTag p catalog c.entries;
  }
