-- ===== src/Prelude/Comparators.antt =====
-- Consistent comparators: numbers, a key of a value, and one comparison after another.
use Prim.Native.Nat.{ℕ, compare, Ordering}
use mathlib.Core.Path.{◌≡◌}
use mathlib.Core.Bool.{true}
use native.Mathlib.Omega.{arith}
use material_email.Prelude.Sort.{IsComparator, then_compare, not_gt, flip}

compare-swapped : (m n : ℕ) → compare n m ≡ flip (compare m n)
compare-swapped m n = ground arith

compare-le_trans :
    (k m n : ℕ)
    → not_gt (compare k m) ≡ true
    → not_gt (compare m n) ≡ true
    → not_gt (compare k n) ≡ true
compare-le_trans k m n h j = ground arith

pub compare-IsComparator : IsComparator compare
compare-IsComparator = record { swapped = compare-swapped; le_trans = compare-le_trans }

module _ {ℓ κ} {A : Type ℓ} {B : Type κ} (f : A → B) {cmp : B → B → Ordering}
    (c : IsComparator cmp) where
  pub key-IsComparator : IsComparator (λ (x y : A). cmp (f x) (f y))
  key-IsComparator = record {
    swapped = λ x y. c.swapped (f x) (f y);
    le_trans = λ x y z. c.le_trans (f x) (f y) (f z);
  }

module _ {ℓ} {A : Type ℓ} {first second : A → A → Ordering} (c : IsComparator first)
    (d : IsComparator second) where
  then-swapped :
      (x y : A)
      → then_compare (first y x) (second y x) ≡ flip (then_compare (first x y) (second x y))
  then-swapped x y = ground (arith, c.swapped x y, d.swapped x y)

  then-le_trans :
      (x y z : A)
      → not_gt (then_compare (first x y) (second x y)) ≡ true
      → not_gt (then_compare (first y z) (second y z)) ≡ true
      → not_gt (then_compare (first x z) (second x z)) ≡ true
  then-le_trans x y z h k = ground (
    arith,
    c.swapped x y,
    c.swapped y z,
    c.swapped x z,
    c.le_trans x y z,
    c.le_trans z x y,
    c.le_trans y z x,
    d.le_trans x y z,
  )

  pub then-IsComparator : IsComparator (λ (x y : A). then_compare (first x y) (second x y))
  then-IsComparator = record { swapped = then-swapped; le_trans = then-le_trans }
