-- ===== src/Attachments/Danger.antt =====
-- The levels and the reasons of an assessment (src/shared/attachment-safety.ts).
use material_email.Prelude.{
  ◌≡◌, ◌↔◌, refl, Bool, true, ◌||◌, List, [], ◌∷◌, ◌++◌, arith, nat_beq_iff, filter, contains,
  any-append, inl, inr, Bool-cases, All,
}
use material_email.Prelude.Text.{Text, text_eq}
use material_email.Runtime.{Unicode}
use material_email.Attachments.Tables.{
  windows_executable_extensions, windows_script_extensions, windows_shortcut_extensions,
  windows_installer_extensions, macro_enabled_extensions,
}
use material_email.Attachments.Names.{
  is_slash, has_slash, filename_only, is_dot_or_space, strip_end, extension_of,
  has_deceptive_double_extension, ends_in_dot_or_space, has_mime_extension_mismatch,
  has_bidirectional_control, is_bidirectional_control,
}
use material_email.Attachments.{
  ordinary, dangerous, RiskReason, reason_eq, reason_order, add_if, level_of, found_reasons,
  classify_attachment,
}

-- in one of the four tables of Windows extensions
abbrev pub is_windows_extension : Text → Bool
is_windows_extension extension =
    contains windows_executable_extensions extension
    || contains windows_script_extensions extension
    || contains windows_shortcut_extensions extension
    || contains windows_installer_extensions extension

abbrev collected : (a b c d e f g h i : Bool) → List RiskReason
collected a b c d e f g h i = add_if a RiskReason.windows_executable (
    add_if b RiskReason.windows_script (
      add_if c RiskReason.windows_shortcut (
        add_if d RiskReason.windows_installer (
          add_if e RiskReason.macro_enabled_document (
            add_if f RiskReason.double_extension (
              add_if g RiskReason.trailing_dot_or_space (
                add_if h RiskReason.bidirectional_control
                  (add_if i RiskReason.mime_extension_mismatch []))))))))

abbrev in_order : List RiskReason → List RiskReason
in_order reasons = filter (contains reasons) reason_order

in_order-collected :
    (a b c d e f g h i : Bool)
    → in_order (collected a b c d e f g h i) ≡ collected a b c d e f g h i
in_order-collected a b c d e f g h i = ground arith

level-collected :
    (a b c d e f g h i : Bool)
    → (level_of (collected a b c d e f g h i) ≡ dangerous) ↔ ((a || b || c || d || h) ≡ true)
level-collected a b c d e f g h i = ground arith

has_slash-pad :
    (s pad : Text) → All (λ c. is_dot_or_space c ≡ true) pad → has_slash (s ++ pad) ≡ has_slash s
has_slash-pad [] [] h = refl
has_slash-pad [] (c ∷ pad) (h, hs) = ground (
  arith,
  nat_beq_iff c 0x2e,
  nat_beq_iff c 0x20,
  nat_beq_iff c 0x5c,
  nat_beq_iff c 0x2f,
  has_slash-pad [] pad hs,
)
has_slash-pad (c ∷ s) pad h = ground (arith, has_slash-pad s pad h)

filename_only-pad :
    (s pad : Text)
    → All (λ c. is_dot_or_space c ≡ true) pad
    → filename_only (s ++ pad) ≡ filename_only s ++ pad
unfolding filename_only
filename_only-pad [] [] h = refl
filename_only-pad [] (c ∷ pad) (h, hs) = ground (
  arith,
  nat_beq_iff c 0x2e,
  nat_beq_iff c 0x20,
  nat_beq_iff c 0x5c,
  nat_beq_iff c 0x2f,
  has_slash-pad [] pad hs,
)
filename_only-pad (c ∷ s) pad h = elim (Bool-cases (has_slash s)) [
  | inl e ↦ rw (has_slash-pad s pad h, e) (filename_only-pad s pad h)
  | inr e ↦ elim (Bool-cases (is_slash c)) [
    | inl f ↦ rw (has_slash-pad s pad h, e, f) refl
    | inr f ↦ rw (has_slash-pad s pad h, e, f) refl
  ]
]

strip_end-pad :
    (s pad : Text) → All (λ c. is_dot_or_space c ≡ true) pad → strip_end (s ++ pad) ≡ strip_end s
unfolding strip_end
strip_end-pad [] [] h = refl
strip_end-pad [] (c ∷ pad) (h, hs) = rw (strip_end-pad [] pad hs, h) refl
strip_end-pad (c ∷ s) pad h = rw (strip_end-pad s pad h) refl

ordinary_of_reasons : (reasons : List RiskReason) → (level_of reasons ≡ ordinary) ↔ (reasons ≡ [])
ordinary_of_reasons [] = ground arith
ordinary_of_reasons (r ∷ reasons) = ground arith

module _ (u : Unicode) where
  found_reasons-collected :
      (leaf content_type : Text)
      → let extension = extension_of u leaf in
        found_reasons u leaf content_type
        ≡ collected
            (contains windows_executable_extensions extension)
            (contains windows_script_extensions extension)
            (contains windows_shortcut_extensions extension)
            (contains windows_installer_extensions extension)
            (contains macro_enabled_extensions extension)
            (has_deceptive_double_extension u leaf)
            (ends_in_dot_or_space leaf)
            (has_bidirectional_control leaf)
            (has_mime_extension_mismatch u extension content_type)
  unfolding found_reasons
  found_reasons-collected leaf content_type = refl

  in_order-found_reasons :
      (leaf content_type : Text)
      → in_order (found_reasons u leaf content_type) ≡ found_reasons u leaf content_type
  unfolding found_reasons
  in_order-found_reasons leaf content_type = in_order-collected _ _ _ _ _ _ _ _ _

  level-found_reasons :
      (leaf content_type : Text)
      → (level_of (found_reasons u leaf content_type) ≡ dangerous)
        ↔ ((is_windows_extension (extension_of u leaf) || has_bidirectional_control leaf) ≡ true)
  unfolding found_reasons
  level-found_reasons leaf content_type =
      let extension = extension_of u leaf in
      ground (
        arith,
        level-collected (contains windows_executable_extensions extension)
            (contains windows_script_extensions extension)
            (contains windows_shortcut_extensions extension)
            (contains windows_installer_extensions extension)
            (contains macro_enabled_extensions extension) (has_deceptive_double_extension u leaf)
            (ends_in_dot_or_space leaf) (has_bidirectional_control leaf)
            (has_mime_extension_mismatch u extension content_type),
      )

  -- An assessment is dangerous exactly where the extension of the last part of the name, as
  -- `extension_of` reads it, is in one of the program's four tables of Windows extensions
  -- (executables, scripts, shortcuts, installers), or that part has a bidirectional control; extensions
  -- outside the tables, macros, double extensions, trailing dots and wrong MIME types do not make it
  -- dangerous.
  pub classify_attachment_dangerous :
      (filename content_type : Text)
      → ((classify_attachment u filename content_type).level ≡ dangerous) ↔ (
          (is_windows_extension (extension_of u (filename_only filename))
            || has_bidirectional_control (filename_only filename))
          ≡ true)
  unfolding classify_attachment
  classify_attachment_dangerous filename content_type =
      rw (in_order-found_reasons (filename_only filename) content_type)
        (level-found_reasons (filename_only filename) content_type)

  -- The reasons of an assessment are all that were found, in the order in which they are shown, and
  -- it is ordinary exactly where there is none.
  pub classify_attachment_reasons :
      (filename content_type : Text)
      → let assessment = classify_attachment u filename content_type in
        (assessment.reasons ≡ found_reasons u (filename_only filename) content_type)
        × ((assessment.level ≡ ordinary) ↔ (assessment.reasons ≡ []))
  unfolding classify_attachment
  classify_attachment_reasons filename content_type =
      rw (in_order-found_reasons (filename_only filename) content_type)
        (refl, ordinary_of_reasons (found_reasons u (filename_only filename) content_type))

  extension_of-pad :
      (s pad : Text)
      → All (λ c. is_dot_or_space c ≡ true) pad
      → extension_of u (s ++ pad) ≡ extension_of u s
  unfolding extension_of
  extension_of-pad s pad h = rw (strip_end-pad s pad h) refl

  bidirectional-pad :
      (s pad : Text)
      → has_bidirectional_control s ≡ true
      → has_bidirectional_control (s ++ pad) ≡ true
  unfolding has_bidirectional_control
  bidirectional-pad s pad h = rw (any-append is_bidirectional_control s pad, h) refl

  -- Dots and spaces after a dangerous name, which Windows drops, leave it dangerous.
  pub classify_attachment-pad_dangerous :
      (filename pad content_type : Text)
      → All (λ c. is_dot_or_space c ≡ true) pad
      → (classify_attachment u filename content_type).level ≡ dangerous
      → (classify_attachment u (filename ++ pad) content_type).level ≡ dangerous
  classify_attachment-pad_dangerous filename pad content_type h d =
      (classify_attachment_dangerous (filename ++ pad) content_type).1 (
        rw (filename_only-pad filename pad h, extension_of-pad (filename_only filename) pad h)
          (ground (
            arith,
            bidirectional-pad (filename_only filename) pad,
            (classify_attachment_dangerous filename content_type).0 d,
          )))
