-- ===== src/Tags/Updates.antt =====
-- `updateMessageTag` of src/shared/message-tags.ts on well-formed catalogs.
use material_email.Prelude.{
  ◌≤◌, ◌≡◌, ◌≢◌, sym, subst, ◌∙◌, ℕ, true, false, Option, none, some, List, [], ◌∷◌, map, arith,
  length, length-map, All, AllPairs, AllPairs-map, AllPairs-with, All-of_map, All-map, any, find?,
  Bool-cases, inl, inr,
}
use material_email.Prelude.Text.{Text, text_beq_iff, is_empty}
use material_email.Runtime.{Unicode}
use material_email.Tags.Names.{MessageTag, name_limit, is_colour}
use material_email.Tags.Catalog.{
  ok, TagPatch, has_id, clashes, sort_message_tags, assert_name_available, update_message_tag,
  replaced, patched_ordinal, patched_name, patched_colour, patched_name_available,
}
use material_email.Tags.Catalogs.{
  IsTag, Differ, IsCatalog, sort_message_tags-IsCatalog, assert_name-valid, assert_colour-valid,
}

module _ (u : Unicode) (id : Text) where
  find?-has_id :
      (tags : List MessageTag) (e : MessageTag) → find? (has_id id) tags ≡ some e → e.id ≡ id
  find?-has_id [] e h = cc
  find?-has_id (t ∷ tags) e h = elim (Bool-cases (has_id id t)) [
    | inl same ↦ ground (arith, text_beq_iff t.id id)
    | inr other ↦ find?-has_id tags e (rw other at h)
  ]

  find?-All {ℓ} :
      (P : MessageTag → Type ℓ) (tags : List MessageTag) (e : MessageTag)
      → All P tags
      → find? (has_id id) tags ≡ some e
      → P e
  find?-All P [] e a h = absurd (cc)
  find?-All P (t ∷ tags) e (p, a) h = elim (Bool-cases (has_id id t)) [
    | inl same ↦ subst_tag (ground arith) p
    | inr other ↦ find?-All P tags e a (rw other at h)
  ]
    where
      subst_tag : t ≡ e → P t → P e
      subst_tag q p = rw q at p

  -- the other tags have other names than the one found
  abbrev NamedApart : Text → MessageTag → Type 0
  NamedApart name t = t.id ≢ id → u.lower t.name ≢ u.lower name

  find?-NamedApart :
      (tags : List MessageTag) (e : MessageTag)
      → AllPairs (Differ u) tags
      → find? (has_id id) tags ≡ some e
      → All (NamedApart e.name) tags
  find?-NamedApart [] e d h = tt
  find?-NamedApart (t ∷ tags) e (d, ds) h = elim (Bool-cases (has_id id t)) [
    | inl same ↦ (
      (λ n p. n ((text_beq_iff t.id id).0 same)),
      subst (λ (x : MessageTag). All (NamedApart x.name) tags) (found_first same)
          (All-map {Q = NamedApart t.name} (λ s q n. q.1) tags d),
    )
    | inr other ↦
        let later = rw other at h in
        (
          (λ n p. (find?-All (Differ u t) tags e d later).1 (sym p)),
          find?-NamedApart tags e ds later,
        )
  ]
    where
      found_first : has_id id t ≡ true → t ≡ e
      found_first same = ground arith

  unclashed-NamedApart :
      (tags : List MessageTag) (name : Text)
      → any (clashes u (u.lower name) (some id)) tags ≡ false
      → All (NamedApart name) tags
  unclashed-NamedApart [] name h = tt
  unclashed-NamedApart (t ∷ tags) name h = (
    (λ n p. ground (arith, text_beq_iff t.id id, text_beq_iff (u.lower t.name) (u.lower name))),
    unclashed-NamedApart tags name (ground arith),
  )

  module _ (name colour : Text) (ordinal : ℕ) where
    replaced-IsTag :
        (is_empty name ≡ false) × (length name ≤ name_limit)
        → is_colour 6 colour ≡ true
        → (t : MessageTag) → IsTag u t
        → IsTag u (replaced u id name colour ordinal t)
    replaced-IsTag n c t h = elim (Bool-cases (has_id id t)) [
      | inl same ↦ rw same (n.0, n.1, c)
      | inr other ↦ rw other h
    ]

    replaced-Differ :
        (s t : MessageTag)
        → Differ u s t × NamedApart name s × NamedApart name t
        → Differ u (replaced u id name colour ordinal s) (replaced u id name colour ordinal t)
    replaced-Differ s t ((p, q), ns, nt) = elim (Bool-cases (has_id id s)) [
      | inl s_same ↦ elim (Bool-cases (has_id id t)) [
        | inl t_same ↦
            absurd (p ((text_beq_iff t.id id).0 t_same ∙ sym ((text_beq_iff s.id id).0 s_same)))
        | inr t_other ↦
            rw (s_same, t_other) (p, nt (λ e. p (e ∙ sym ((text_beq_iff s.id id).0 s_same))))
      ]
      | inr s_other ↦ elim (Bool-cases (has_id id t)) [
        | inl t_same ↦
            rw (s_other, t_same)
              (p, (λ e. ns (λ f. p ((text_beq_iff t.id id).0 t_same ∙ sym f)) (sym e)))
        | inr t_other ↦ rw (s_other, t_other) (p, q)
      ]
    ]

    map-replaced-IsCatalog :
        (tags : List MessageTag)
        → IsCatalog u tags
        → (is_empty name ≡ false) × (length name ≤ name_limit)
        → is_colour 6 colour ≡ true
        → All (NamedApart name) tags
        → IsCatalog u (map (replaced u id name colour ordinal) tags)
    map-replaced-IsCatalog tags c n k apart = record {
      bounded = omega (arith, length-map (replaced u id name colour ordinal) tags, c.bounded);
      differ =
          AllPairs-map (Differ u) (replaced u id name colour ordinal) replaced-Differ tags
            (AllPairs-with (Differ u) (NamedApart name) tags c.differ apart);
      entries =
          All-of_map (IsTag u) (replaced u id name colour ordinal) tags
            (All-map (replaced-IsTag n k) tags c.entries);
    }

module _ (u : Unicode) where
  patched_name-valid :
      (existing : MessageTag) (patch : Option Text) (name : Text)
      → IsTag u existing
      → patched_name u existing patch ≡ ok name
      → (is_empty name ≡ false) × (length name ≤ name_limit)
  patched_name-valid existing none name e h = ground arith
  patched_name-valid existing (some s) name e h = assert_name-valid u s name h

  patched_colour-valid :
      (existing : MessageTag) (patch : Option Text) (colour : Text)
      → IsTag u existing
      → patched_colour u existing patch ≡ ok colour
      → is_colour 6 colour ≡ true
  patched_colour-valid existing none colour e h = ground arith
  patched_colour-valid existing (some s) colour e h = assert_colour-valid u s colour h

  patched_name-apart :
      (catalog : List MessageTag) (id : Text) (existing : MessageTag) (patch : Option Text)
      (name : Text)
      → AllPairs (Differ u) catalog
      → find? (has_id id) catalog ≡ some existing
      → patched_name u existing patch ≡ ok name
      → patched_name_available u catalog name patch id ≡ ok tt
      → All (NamedApart u id name) catalog
  unfolding assert_name_available
  patched_name-apart catalog id existing none name d f h k =
      subst (λ n. All (NamedApart u id n) catalog) (ground arith)
        (find?-NamedApart u id catalog existing d f)
  patched_name-apart catalog id existing (some s) name d f h k =
      unclashed-NamedApart u id catalog name (ground arith)

  -- An update that succeeds has found the tag, and has replaced its fields by valid ones.
  updated :
      (catalog : List MessageTag) (id : Text) (patch : TagPatch) (tags : List MessageTag)
      → update_message_tag u catalog id patch ≡ ok tags
      → (existing : MessageTag) × (name : Text) × (colour : Text) × (find? (has_id id) catalog
          ≡ some existing)
        × (patched_name u existing patch.name ≡ ok name)
        × (patched_name_available u catalog name patch.name id ≡ ok tt)
        × (patched_colour u existing patch.colour ≡ ok colour)
        × (tags
            ≡ sort_message_tags u (
                map
                  (replaced u id name colour (patched_ordinal existing.ordinal patch.ordinal))
                  catalog))
  unfolding update_message_tag
  updated catalog id patch tags h = ground arith

  -- An update that succeeds on a well-formed catalog gives a well-formed one.
  pub update_message_tag-IsCatalog :
      (catalog : List MessageTag) (id : Text) (patch : TagPatch) (tags : List MessageTag)
      → IsCatalog u catalog
      → update_message_tag u catalog id patch ≡ ok tags
      → IsCatalog u tags
  update_message_tag-IsCatalog catalog id patch tags c h =
      let (existing, name, colour, found, named, free, coloured, result) =
        updated catalog id patch tags h in
      let valid = find?-All u id (IsTag u) catalog existing c.entries found in
      subst (IsCatalog u) (sym result) (
        sort_message_tags-IsCatalog u _ (
          map-replaced-IsCatalog u id name colour (patched_ordinal existing.ordinal patch.ordinal)
            catalog c (patched_name-valid existing patch.name name valid named)
            (patched_colour-valid existing patch.colour colour valid coloured)
            (patched_name-apart catalog id existing patch.name name c.differ found named free)))
