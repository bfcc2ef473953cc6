-- ===== src/Attachments/Reviews.antt =====
-- The comparison of reviews of attachments (src/shared/attachment-safety.ts).
use material_email.Prelude.{◌≡◌, ◌↔◌, true, Option, none, some, List, [], ◌∷◌, arith, nat_beq_iff}
use material_email.Prelude.Text.{text_beq_iff}
use material_email.Attachments.{
  RiskLevel, ordinary, caution, dangerous, RiskReason, reason_beq_iff, level_beq, RiskReviewItem,
  same_reasons, same_item, same_items, attachment_save_review_matches,
}

level_beq_iff : (a b : RiskLevel) → (level_beq a b ≡ true) ↔ (a ≡ b)
level_beq_iff ordinary ordinary = ground arith
level_beq_iff ordinary caution = ground arith
level_beq_iff ordinary dangerous = ground arith
level_beq_iff caution ordinary = ground arith
level_beq_iff caution caution = ground arith
level_beq_iff caution dangerous = ground arith
level_beq_iff dangerous ordinary = ground arith
level_beq_iff dangerous caution = ground arith
level_beq_iff dangerous dangerous = ground arith

same_reasons_iff :
    (expected received : List RiskReason)
    → (same_reasons expected received ≡ true) ↔ (expected ≡ received)
same_reasons_iff [] [] = ground arith
same_reasons_iff [] (r ∷ received) = ground arith
same_reasons_iff (e ∷ expected) [] = ground arith
same_reasons_iff (e ∷ expected) (r ∷ received) =
    ground (arith, reason_beq_iff r e, same_reasons_iff expected received)

same_item_iff : (e r : RiskReviewItem) → (same_item e r ≡ true) ↔ (e ≡ r)
same_item_iff e r = ground (
  arith,
  nat_beq_iff r.index e.index,
  text_beq_iff r.filename e.filename,
  text_beq_iff r.content_type e.content_type,
  level_beq_iff r.level e.level,
  same_reasons_iff e.reasons r.reasons,
)

same_items_iff :
    (expected received : List RiskReviewItem)
    → (same_items expected received ≡ true) ↔ (expected ≡ received)
same_items_iff [] [] = ground arith
same_items_iff [] (r ∷ received) = ground arith
same_items_iff (e ∷ expected) [] = ground arith
same_items_iff (e ∷ expected) (r ∷ received) =
    ground (arith, same_item_iff e r, same_items_iff expected received)

-- A review that comes back is accepted exactly where it is there and equals the expected one, in
-- every field of every item and in their order.
pub attachment_save_review_matches_iff :
    (expected : List RiskReviewItem) (received : Option (List RiskReviewItem))
    → (attachment_save_review_matches expected received ≡ true) ↔ (received ≡ some expected)
unfolding attachment_save_review_matches
attachment_save_review_matches_iff expected none = ground arith
attachment_save_review_matches_iff expected (some received) =
    ground (arith, same_items_iff expected received)
