-- ===== src/Prelude/Text/Laws.antt =====
-- Trimming, splitting and printing numbers.
use material_email.Prelude.Tests.{ltb, nat_beq_iff, Bool-cases}
use Prim.Native.Nat.{ℕ, zero, suc, ◌+◌, ◌-◌, ◌*◌, ◌/◌, ◌%◌, ◌≤◌}
use mathlib.Core.Path.{◌≡◌, refl, ap, sym, ◌∙◌}
use mathlib.Core.Logic.{◌≢◌, inl, inr}
use mathlib.Core.Bool.{false}
use mathlib.Core.List.{List, [], ◌∷◌, ◌++◌}
use native.Mathlib.Omega.{arith}
use material_email.Prelude.Predicates.{All}
use material_email.Prelude.Text.{
  Text, is_space, trim_start, keep_unit, trim_end, trim, split_step, split, decimal_fuel, decimal,
}

-- The number that digits stand for, read from the left.
digits_value : ℕ → Text → ℕ
digits_value acc [] = acc
digits_value acc (c ∷ s) = digits_value (acc * 10 + (c - 48)) s

digits_value-append :
    (acc c : ℕ) (s : Text) → digits_value acc (s ++ c ∷ []) ≡ digits_value acc s * 10 + (c - 48)
unfolding digits_value
digits_value-append acc c [] = refl
digits_value-append acc c (d ∷ s) = digits_value-append (acc * 10 + (d - 48)) c s

digits_value-decimal_fuel : (f n : ℕ) → n ≤ f → digits_value 0 (decimal_fuel f n) ≡ n
unfolding digits_value decimal_fuel
digits_value-decimal_fuel zero n h = omega arith
digits_value-decimal_fuel (suc f) n h = elim (Bool-cases (ltb n 10)) [
  | inl small ↦ rw small (omega arith)
  | inr large ↦ rw large (
      digits_value-append 0 (n % 10 + 48) (decimal_fuel f (n / 10))
      ∙ ground (arith, digits_value-decimal_fuel f (n / 10)))
]

-- Numbers that print alike are equal.
pub decimal_injective : (m n : ℕ) → decimal m ≡ decimal n → m ≡ n
unfolding decimal
decimal_injective m n h =
    sym (digits_value-decimal_fuel m m (omega arith))
    ∙ ap (digits_value 0) h
    ∙ digits_value-decimal_fuel n n (omega arith)

-- A text with no separator is one part, and one in front of a separator is the first part.
abbrev pub Lacks : ℕ → Text → Type 0
Lacks separator = All (λ c. c ≢ separator)

pub split_of_Lacks : (separator : ℕ) (s : Text) → Lacks separator s → split separator s ≡ s ∷ []
unfolding split
split_of_Lacks separator [] h = refl
split_of_Lacks separator (c ∷ s) (h, hs) =
    rw (split_of_Lacks separator s hs) (ground (arith, nat_beq_iff c separator))

split-ne-nil : (separator : ℕ) (s : Text) → split separator s ≢ []
unfolding split
split-ne-nil separator [] h = cc
split-ne-nil separator (c ∷ s) h = ground (arith, split-ne-nil separator s)

pub split-append :
    (separator : ℕ) (s t : Text)
    → Lacks separator s
    → split separator (s ++ separator ∷ t) ≡ s ∷ split separator t
unfolding split
split-append separator [] t h = split_step-self (split separator t) (split-ne-nil separator t)
  where
    split_step-self :
        (parts : List Text) → parts ≢ [] → split_step separator separator parts ≡ [] ∷ parts
    split_step-self parts h = ground (arith, nat_beq_iff separator separator)
split-append separator (c ∷ s) t (h, hs) =
    rw (split-append separator s t hs) (ground (arith, nat_beq_iff c separator))

-- What `trim_end` leaves of a text that begins with no space begins with none.
trim_start-keep_unit :
    (c : ℕ) (s : Text) → is_space c ≡ false → trim_start (keep_unit c s) ≡ keep_unit c s
unfolding trim_start
trim_start-keep_unit c [] h = rw h (rw h refl)
trim_start-keep_unit c (d ∷ s) h = rw h refl

trim_start-trim_end-trim_start :
    (s : Text) → trim_start (trim_end (trim_start s)) ≡ trim_end (trim_start s)
unfolding trim_start trim_end
trim_start-trim_end-trim_start [] = refl
trim_start-trim_end-trim_start (c ∷ s) = elim (Bool-cases (is_space c)) [
  | inl space ↦ rw space (trim_start-trim_end-trim_start s)
  | inr other ↦ rw other (trim_start-keep_unit c (trim_end s) other)
]

trim_end-keep_unit : (c : ℕ) (s : Text) → trim_end s ≡ s → trim_end (keep_unit c s) ≡ keep_unit c s
unfolding trim_end
trim_end-keep_unit c [] h = ground arith
trim_end-keep_unit c (d ∷ s) h = ap (keep_unit c) h

trim_end_idem : (s : Text) → trim_end (trim_end s) ≡ trim_end s
unfolding trim_end
trim_end_idem [] = refl
trim_end_idem (c ∷ s) = trim_end-keep_unit c (trim_end s) (trim_end_idem s)

-- Trimming twice is trimming once.
pub trim_idem : (s : Text) → trim (trim s) ≡ trim s
unfolding trim
trim_idem s = ap trim_end (trim_start-trim_end-trim_start s) ∙ trim_end_idem (trim_start s)
