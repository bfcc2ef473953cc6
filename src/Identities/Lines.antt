-- ===== src/Identities/Lines.antt =====
-- What normalizeIdentityText and normalizeIdentityLine of src/shared/identities.ts leave of a text.
use material_email.Prelude.{
  ℕ, ◌≡◌, ◌≤◌, refl, suc, false, not, [], ◌∷◌, ◌++◌, arith, filter, any, take, length, nat_beq, All,
  All-append, All-take, All-map, filter_sound, Bool-cases, inl, inr, length-take_le,
}
use material_email.Prelude.Text.{Text, is_space, trim, trim_start, trim_end, keep_unit}
use material_email.Runtime.{Unicode}
use material_email.Identities.Normal.{
  is_control, unify_newlines, fold_run, fold_newlines, normalize_identity_text,
  normalize_identity_line,
}

-- a unit that may stand in a header value
abbrev pub IsHeaderUnit : ℕ → Type 0
IsHeaderUnit c = (is_control c ≡ false) × (nat_beq c 0x0a ≡ false)

module _ (P : ℕ → Type 0) where
  All-trim_start : (s : Text) → All P s → All P (trim_start s)
  unfolding trim_start
  All-trim_start [] h = tt
  All-trim_start (c ∷ s) (h, hs) = elim (Bool-cases (is_space c)) [
    | inl space ↦ rw space (All-trim_start s hs)
    | inr other ↦ rw other (h, hs)
  ]

  All-keep_unit : (c : ℕ) (s : Text) → P c → All P s → All P (keep_unit c s)
  All-keep_unit c [] h hs = elim (Bool-cases (is_space c)) [
    | inl space ↦ rw space tt
    | inr other ↦ rw other (h, tt)
  ]
  All-keep_unit c (d ∷ s) h hs = (h, hs)

  All-trim_end : (s : Text) → All P s → All P (trim_end s)
  unfolding trim_end
  All-trim_end [] h = tt
  All-trim_end (c ∷ s) (h, hs) = All-keep_unit c (trim_end s) h (All-trim_end s hs)

  pub All-trim : (s : Text) → All P s → All P (trim s)
  unfolding trim
  All-trim s h = All-trim_end (trim_start s) (All-trim_start s h)

length-keep_unit : (c : ℕ) (s : Text) → length (keep_unit c s) ≤ suc (length s)
length-keep_unit c [] = ground arith
length-keep_unit c (d ∷ s) = omega arith

length-trim_end : (s : Text) → length (trim_end s) ≤ length s
unfolding trim_end
length-trim_end [] = omega arith
length-trim_end (c ∷ s) = omega (arith, length-keep_unit c (trim_end s), length-trim_end s)

length-trim_start : (s : Text) → length (trim_start s) ≤ length s
unfolding trim_start
length-trim_start [] = omega arith
length-trim_start (c ∷ s) = ground (arith, length-trim_start s)

pub length-trim : (s : Text) → length (trim s) ≤ length s
unfolding trim
length-trim s = omega (arith, length-trim_end (trim_start s), length-trim_start s)

normalize_identity_text-controls :
    (u : Unicode) (value : Text) (limit : ℕ)
    → All (λ c. is_control c ≡ false) (normalize_identity_text u value limit)
unfolding normalize_identity_text
normalize_identity_text-controls u value limit =
    All-trim (λ c. is_control c ≡ false) (take limit kept)
      (All-take (λ c. is_control c ≡ false) limit kept
        (All-map {Q = λ c. is_control c ≡ false} (λ c h. ground arith) kept
          (filter_sound (λ c. not (is_control c)) units)))
  where
    units : Text
    units = unify_newlines false (u.nfkc value)

    kept : Text
    kept = filter (λ c. not (is_control c)) units

All-without_line_feed :
    (run : Text)
    → any (nat_beq 0x0a) run ≡ false
    → All (λ c. is_control c ≡ false) run
    → All IsHeaderUnit run
All-without_line_feed [] h k = tt
All-without_line_feed (c ∷ run) h (k, ks) =
    ((k, ground arith), All-without_line_feed run (ground arith) ks)

fold_run-IsHeader :
    (run : Text) → All (λ c. is_control c ≡ false) run → All IsHeaderUnit (fold_run run)
fold_run-IsHeader run h = elim (Bool-cases (any (nat_beq 0x0a) run)) [
  | inl folded ↦ rw folded ((refl, refl), tt)
  | inr plain ↦ rw plain (All-without_line_feed run plain h)
]

fold_newlines-IsHeader :
    (run s : Text)
    → All (λ c. is_control c ≡ false) run
    → All (λ c. is_control c ≡ false) s
    → All IsHeaderUnit (fold_newlines run s)
unfolding fold_newlines
fold_newlines-IsHeader run [] h k = fold_run-IsHeader run h
fold_newlines-IsHeader run (c ∷ s) h (k, ks) = elim (Bool-cases (is_space c)) [
  | inl space ↦ rw space (
      fold_newlines-IsHeader (run ++ c ∷ []) s
        (All-append (λ d. is_control d ≡ false) run (c ∷ []) h (k, tt)) ks)
  | inr other ↦ rw other (
      All-append IsHeaderUnit (fold_run run) (c ∷ fold_newlines [] s) (fold_run-IsHeader run h)
        ((k, unfold is_space in ground arith), fold_newlines-IsHeader [] s tt ks))
]

-- Whatever text is given for a display name or an organization, what is kept has no line feed, no
-- carriage return and no other unit from 0 to 0x1f but the tab, nor 0x7f, so that it cannot end a
-- header line, and it has at most as many units as the limit says.
pub normalize_identity_line_lem :
    (u : Unicode) (value : Text) (limit : ℕ)
    → All IsHeaderUnit (normalize_identity_line u value limit)
      × (length (normalize_identity_line u value limit) ≤ limit)
unfolding normalize_identity_line
normalize_identity_line_lem u value limit =
    let line = fold_newlines [] (normalize_identity_text u value limit) in
    (
      All-trim IsHeaderUnit (take limit line) (
          All-take IsHeaderUnit limit line (
            fold_newlines-IsHeader [] (normalize_identity_text u value limit) tt
              (normalize_identity_text-controls u value limit))),
      omega (arith, length-trim (take limit line), length-take_le limit line),
    )
