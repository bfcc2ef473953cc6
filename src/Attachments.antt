-- ===== src/Attachments.antt =====
-- src/shared/attachment-safety.ts: how dangerous an attachment looks, and the review before a save.
pub mod Tables
pub mod Names
pub mod Reviews
pub mod Danger
use material_email.Prelude.{
  ℕ, suc, ◌≡◌, ◌↔◌, refl, sym, ap, ◌∙◌, Bool, true, false, not, ◌&&◌, ◌||◌, Option, none, some,
  List, [], ◌∷◌, filter, any, contains, map, nat_beq, nat_beq_iff, if◌then◌else◌, Eq, length,
  get_elem?, arith,
}
use material_email.Prelude.Text.{Text, text_eq, text_beq}
use material_email.Runtime.{Unicode}
use Tables.{
  windows_executable_extensions, windows_script_extensions, windows_shortcut_extensions,
  windows_installer_extensions, macro_enabled_extensions,
}
use Names.{
  filename_only, extension_of, has_deceptive_double_extension, ends_in_dot_or_space,
  has_bidirectional_control, has_mime_extension_mismatch,
}

pub data RiskLevel : Type 0 where
  ordinary caution dangerous : RiskLevel

pub data RiskReason : Type 0 where
  windows_executable windows_script windows_shortcut windows_installer macro_enabled_document
        double_extension trailing_dot_or_space bidirectional_control mime_extension_mismatch :
      RiskReason

pub record RiskAssessment : Type 0 where
  pub level : RiskLevel
  pub reasons : List RiskReason

-- `===` on reasons and on levels, by their places in the unions
abbrev reason_place : RiskReason → ℕ
reason_place windows_executable = 0
reason_place windows_script = 1
reason_place windows_shortcut = 2
reason_place windows_installer = 3
reason_place macro_enabled_document = 4
reason_place double_extension = 5
reason_place trailing_dot_or_space = 6
reason_place bidirectional_control = 7
reason_place mime_extension_mismatch = 8

-- `REASON_ORDER`
abbrev pub reason_order : List RiskReason
reason_order =
    windows_executable ∷ windows_script ∷ windows_shortcut ∷ windows_installer
    ∷ macro_enabled_document ∷ double_extension ∷ trailing_dot_or_space ∷ bidirectional_control
    ∷ mime_extension_mismatch ∷ []

reason_order-place : (a : RiskReason) → get_elem? reason_order (reason_place a) ≡ some a
reason_order-place windows_executable = refl
reason_order-place windows_script = refl
reason_order-place windows_shortcut = refl
reason_order-place windows_installer = refl
reason_order-place macro_enabled_document = refl
reason_order-place double_extension = refl
reason_order-place trailing_dot_or_space = refl
reason_order-place bidirectional_control = refl
reason_order-place mime_extension_mismatch = refl

abbrev pub reason_beq : RiskReason → RiskReason → Bool
reason_beq a b = nat_beq (reason_place a) (reason_place b)

pub reason_beq_iff : (a b : RiskReason) → (reason_beq a b ≡ true) ↔ (a ≡ b)
reason_beq_iff a b = ground (
  arith,
  reason_order-place a,
  reason_order-place b,
  nat_beq_iff (reason_place a) (reason_place b),
)

instance abbrev pub reason_eq : Eq RiskReason
reason_eq = record { same = reason_beq; same_iff = reason_beq_iff }

abbrev pub level_beq : RiskLevel → RiskLevel → Bool
level_beq ordinary ordinary = true
level_beq caution caution = true
level_beq dangerous dangerous = true
level_beq _ _ = false

abbrev pub is_dangerous : RiskReason → Bool
is_dangerous windows_executable = true
is_dangerous windows_script = true
is_dangerous windows_shortcut = true
is_dangerous windows_installer = true
is_dangerous bidirectional_control = true
is_dangerous _ = false

-- `if (condition) reasons.add(reason)`, in front of what follows it
abbrev pub add_if : Bool → RiskReason → List RiskReason → List RiskReason
add_if condition reason reasons = if condition then reason ∷ reasons else reasons

abbrev no_reasons : List RiskReason → Bool
no_reasons [] = true
no_reasons (reason ∷ reasons) = false

abbrev pub level_of : List RiskReason → RiskLevel
level_of reasons =
    if any is_dangerous reasons then dangerous else if no_reasons reasons then ordinary else caution

module _ (u : Unicode) where
  unfoldable pub found_reasons : Text → Text → List RiskReason
  found_reasons leaf content_type =
      let extension = extension_of u leaf in
      add_if (contains windows_executable_extensions extension) windows_executable (
        add_if (contains windows_script_extensions extension) windows_script (
          add_if (contains windows_shortcut_extensions extension) windows_shortcut (
            add_if (contains windows_installer_extensions extension) windows_installer (
              add_if (contains macro_enabled_extensions extension) macro_enabled_document (
                add_if (has_deceptive_double_extension u leaf) double_extension (
                  add_if (ends_in_dot_or_space leaf) trailing_dot_or_space (
                    add_if (has_bidirectional_control leaf) bidirectional_control (
                      add_if (has_mime_extension_mismatch u extension content_type)
                        mime_extension_mismatch []))))))))

  unfoldable pub classify_attachment : Text → Text → RiskAssessment
  unfolding found_reasons
  classify_attachment filename content_type =
      let reasons = found_reasons (filename_only filename) content_type in
      let ordered = filter (contains reasons) reason_order in
      record { level = level_of ordered; reasons = ordered }

pub record AttachmentDescriptor : Type 0 where
  pub filename : Text
  pub content_type : Text

pub record RiskReviewItem : Type 0 where
  pub level : RiskLevel
  pub reasons : List RiskReason
  pub index : ℕ
  pub filename : Text
  pub content_type : Text

module _ (u : Unicode) where
  unfoldable pub create_risk_review_item : AttachmentDescriptor → ℕ → RiskReviewItem
  unfolding classify_attachment
  create_risk_review_item attachment index =
      let assessment = classify_attachment u attachment.filename attachment.content_type in
      record {
        level = assessment.level;
        reasons = assessment.reasons;
        index = index;
        filename = attachment.filename;
        content_type = attachment.content_type;
      }

  -- `attachments.map(createAttachmentRiskReviewItem)`, from an index on
  unfoldable pub review_items : ℕ → List AttachmentDescriptor → List RiskReviewItem
  unfolding create_risk_review_item
  review_items index [] = []
  review_items index (attachment ∷ attachments) =
      create_risk_review_item attachment index ∷ review_items (suc index) attachments

  -- the risky attachments of a review
  unfoldable pub create_attachment_save_review : List AttachmentDescriptor → List RiskReviewItem
  unfolding review_items
  create_attachment_save_review attachments =
      filter (λ item. not (level_beq item.level ordinary)) (review_items 0 attachments)

-- `reasons.length === …` and `every` of the pairs
abbrev pub same_reasons : List RiskReason → List RiskReason → Bool
same_reasons [] [] = true
same_reasons [] (r ∷ received) = false
same_reasons (e ∷ expected) [] = false
same_reasons (e ∷ expected) (r ∷ received) = reason_beq r e && same_reasons expected received

abbrev pub same_item : RiskReviewItem → RiskReviewItem → Bool
same_item expected candidate =
    nat_beq candidate.index expected.index
    && text_beq candidate.filename expected.filename
    && text_beq candidate.content_type expected.content_type
    && level_beq candidate.level expected.level
    && same_reasons expected.reasons candidate.reasons

-- The lengths agree and so does every pair.
abbrev pub same_items : List RiskReviewItem → List RiskReviewItem → Bool
same_items [] [] = true
same_items [] (r ∷ received) = false
same_items (e ∷ expected) [] = false
same_items (e ∷ expected) (r ∷ received) = same_item e r && same_items expected received

unfoldable pub attachment_save_review_matches :
    List RiskReviewItem → Option (List RiskReviewItem) → Bool
attachment_save_review_matches expected none = false
attachment_save_review_matches expected (some received) = same_items expected received
