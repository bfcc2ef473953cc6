-- ===== src/Prelude/Text.antt =====
-- JavaScript strings as lists of UTF-16 code units, with the methods that the program calls.
pub mod Laws
use Prim.Native.Char.{code}
use Prim.Native.Nat.{ℕ, zero, suc, ◌+◌, ◌-◌, ◌*◌, ◌/◌, ◌%◌, ◌≤◌, ◌<◌}
use Prim.Native.String
use Prim.Native.String.{String}
use mathlib.Core.Path.{◌≡◌, refl, ap, ◌∙◌}
use mathlib.Core.Logic.{◌↔◌, inl, inr}
use mathlib.Core.Bool.{Bool, true, false, not, ◌&&◌, ◌||◌}
use mathlib.Core.List.{List, [], ◌∷◌, ◌++◌}
use native.Mathlib.Omega.{arith}
use material_email.Prelude.Tests.{if◌then◌else◌, Eq, ltb, leb, nat_beq, nat_beq_iff, Bool-cases}

abbrev pub Text : Type 0
Text = List ℕ

-- The code units of a literal, which is ASCII wherever the program uses one.
abbrev pub text : String → Text
text String.[] = []
text (String.◌∷◌ c s) = code c ∷ text s

unfoldable pub text_beq : Text → Text → Bool
text_beq [] [] = true
text_beq [] (d ∷ t) = false
text_beq (c ∷ s) [] = false
text_beq (c ∷ s) (d ∷ t) = nat_beq c d && text_beq s t

pub text_beq_iff : (s t : Text) → (text_beq s t ≡ true) ↔ (s ≡ t)
unfolding text_beq
text_beq_iff [] [] = ground arith
text_beq_iff [] (d ∷ t) = ground arith
text_beq_iff (c ∷ s) [] = ground arith
text_beq_iff (c ∷ s) (d ∷ t) = ground (arith, nat_beq_iff c d, text_beq_iff s t)

pub text_beq_refl : (s : Text) → text_beq s s ≡ true
text_beq_refl s = (text_beq_iff s s).1 refl

instance abbrev pub text_eq : Eq Text
text_eq = record { same = text_beq; same_iff = text_beq_iff }

abbrev pub is_empty : Text → Bool
is_empty [] = true
is_empty (c ∷ s) = false

-- White space and line terminators: what `trim` removes, and `\s`.
unfoldable pub is_space : ℕ → Bool
is_space c =
    (leb 9 c && leb c 13)
    || nat_beq c 0x20
    || nat_beq c 0xa0
    || nat_beq c 0x1680
    || (leb 0x2000 c && leb c 0x200a)
    || nat_beq c 0x2028
    || nat_beq c 0x2029
    || nat_beq c 0x202f
    || nat_beq c 0x205f
    || nat_beq c 0x3000
    || nat_beq c 0xfeff

unfoldable pub trim_start : Text → Text
trim_start [] = []
trim_start (c ∷ s) = if is_space c then trim_start s else c ∷ s

-- one unit in front of a text whose end is trimmed
abbrev pub keep_unit : ℕ → Text → Text
keep_unit c [] = if is_space c then [] else c ∷ []
keep_unit c (d ∷ s) = c ∷ d ∷ s

unfoldable pub trim_end : Text → Text
trim_end [] = []
trim_end (c ∷ s) = keep_unit c (trim_end s)

unfoldable pub trim : Text → Text
unfolding trim_start trim_end
trim s = trim_end (trim_start s)

unfoldable pub starts_with : Text → Text → Bool
starts_with s [] = true
starts_with [] (d ∷ t) = false
starts_with (c ∷ s) (d ∷ t) = nat_beq c d && starts_with s t

unfoldable pub includes : Text → Text → Bool
unfolding starts_with
includes [] t = starts_with [] t
includes (c ∷ s) t = starts_with (c ∷ s) t || includes s t

unfoldable pub ends_with : Text → Text → Bool
unfolding text_beq
ends_with [] t = text_beq [] t
ends_with (c ∷ s) t = text_beq (c ∷ s) t || ends_with s t

-- `parts.join(separator)`
unfoldable pub join : Text → List Text → Text
join separator [] = []
join separator (part ∷ []) = part
join separator (part ∷ next ∷ parts) = part ++ (separator ++ join separator (next ∷ parts))

-- the first part of a split, and the others
abbrev pub split_step : ℕ → ℕ → List Text → List Text
split_step separator c [] = []
split_step separator c (part ∷ parts) =
    if nat_beq c separator then [] ∷ part ∷ parts else (c ∷ part) ∷ parts

-- `s.split(separator)` for a separator of one unit
unfoldable pub split : ℕ → Text → List Text
split separator [] = [] ∷ []
split separator (c ∷ s) = split_step separator c (split separator s)

-- `String(n)` of a natural number; the fuel `n` is enough.
unfoldable pub decimal_fuel : ℕ → ℕ → Text
decimal_fuel zero n = (n + 48) ∷ []
decimal_fuel (suc f) n =
    let front = decimal_fuel f (n / 10) in
    if ltb n 10 then (n + 48) ∷ [] else front ++ (n % 10 + 48) ∷ []

unfoldable pub decimal : ℕ → Text
unfolding decimal_fuel
decimal n = decimal_fuel n n

-- Code points: a high surrogate and a low one make one, any other unit stands for itself.
abbrev pub is_high : ℕ → Bool
is_high c = leb 0xd800 c && leb c 0xdbff

abbrev pub is_low : ℕ → Bool
is_low c = leb 0xdc00 c && leb c 0xdfff

unfoldable pub code_points : Text → List ℕ
code_points [] = []
code_points (c ∷ []) = c ∷ []
code_points (c ∷ d ∷ s) =
    let pair = ((c - 0xd800) * 0x400 + (d - 0xdc00) + 0x10000) ∷ code_points s in
    let single = c ∷ code_points (d ∷ s) in if is_high c && is_low d then pair else single

-- the units of a code point
unfoldable pub units : ℕ → Text
units p =
    if ltb p 0x10000
    then p ∷ []
    else ((p - 0x10000) / 0x400 + 0xd800) ∷ ((p - 0x10000) % 0x400 + 0xdc00) ∷ []
