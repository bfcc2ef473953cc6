-- ===== src/Junk/Counts.antt =====
-- The counts of a junk model under the loops of src/shared/junk-classifier.ts.
use material_email.Prelude.{
  ℕ, ◌+◌, ◌-◌, ◌≤◌, ◌<◌, ◌≡◌, ◌≢◌, refl, sym, ap, ◌∙◌, true, false, none, some, List, [], ◌∷◌,
  arith, min, length, length-take_le, contains, All, AllPairs, if◌then◌else◌, Bool-cases,
  Option-cases, inl, inr, leb, sort,
}
use material_email.Prelude.Text.{Text, text_beq, text_beq_iff, text_eq}
use material_email.Runtime.{Unicode}
use material_email.Mail.{Object, lookup, insert, erase}
use material_email.Mail.Objects.{lookup-insert, lookup-erase, length-insert}
use material_email.Junk.{
  model_token_limit, max_safe_integer, TokenCounts, Label, junk, good, counts_or_zero, raise,
  lower_counts, is_zero, train_tokens, untrain_token, untrain_tokens, prune_tokens, compare_entries,
}

-- The counts of a token, which are 0 where the model has none.
abbrev pub counts_at : Object TokenCounts → Text → TokenCounts
counts_at tokens token = counts_or_zero (lookup token tokens)

abbrev pub Distinct : List Text → Type 0
Distinct = AllPairs (λ a b. b ≢ a)

absent :
    (token : Text) (tokens : List Text)
    → All (λ t. t ≢ token) tokens
    → contains tokens token ≡ false
absent token [] h = refl
absent token (t ∷ tokens) (h, hs) = ground (arith, text_beq_iff t token, absent token tokens hs)

counts_at-insert :
    (k j : Text) (c : TokenCounts) (m : Object TokenCounts)
    → counts_at (insert k c m) j ≡ (if text_beq k j then c else counts_at m j)
counts_at-insert k j c m = ground (arith, lookup-insert k j c m)

pub counts_at-train_tokens :
    (label : Label) (tokens : List Text) (m : Object TokenCounts) (j : Text)
    → Distinct tokens
    → counts_at (train_tokens label tokens m) j
      ≡ (if contains tokens j then raise label (counts_at m j) else counts_at m j)
unfolding train_tokens
counts_at-train_tokens label [] m j d = refl
counts_at-train_tokens label (t ∷ tokens) m j (d, ds) =
    let m' = insert t (raise label (counts_at m t)) m in
    let now = counts_at-insert t j (raise label (counts_at m t)) m in
    elim (Bool-cases (text_beq t j)) [
      | inl same ↦
          let e = (text_beq_iff t j).0 same in
          let gone : contains tokens j ≡ false = absent j tokens (rw (← e) d) in
          rw same (
            counts_at-train_tokens label tokens m' j ds
            ∙ rw gone (now ∙ rw same (ap (λ k. raise label (counts_at m k)) e)))
      | inr other ↦ rw other (
          counts_at-train_tokens label tokens m' j ds
          ∙ ap (λ c. if contains tokens j then raise label c else c) (now ∙ rw other))
    ]

lower-zero :
    (label : Label)
    → lower_counts label (record { junk = 0; good = 0 }) ≡ record { junk = 0; good = 0 }
lower-zero junk = refl
lower-zero good = refl

is_zero_sound : (c : TokenCounts) → is_zero c ≡ true → c ≡ record { junk = 0; good = 0 }
is_zero_sound c h = ground arith

counts_at-erase :
    (k j : Text) (m : Object TokenCounts)
    → counts_at (erase k m) j
      ≡ (if text_beq k j then record { junk = 0; good = 0 } else counts_at m j)
counts_at-erase k j m = ground (arith, lookup-erase k j m)

counts_at-untrain_token :
    (label : Label) (t j : Text) (m : Object TokenCounts)
    → counts_at (untrain_token label t (lookup t m) m) j
      ≡ (if text_beq t j then lower_counts label (counts_at m j) else counts_at m j)
counts_at-untrain_token label t j m = elim (Option-cases (lookup t m)) [
  | inl missing ↦ elim (Bool-cases (text_beq t j)) [
    | inl same ↦
        let e = (text_beq_iff t j).0 same in
        let missing' : lookup j m ≡ none = rw (← e) missing in
        rw (missing, same, missing') (sym (lower-zero label))
    | inr other ↦ rw (missing, other)
  ]
  | inr (c, found) ↦ elim (Bool-cases (text_beq t j)) [
    | inl same ↦
        let e = (text_beq_iff t j).0 same in
        let found' : lookup j m ≡ some c = rw (← e) found in
        elim (Bool-cases (is_zero (lower_counts label c))) [
          | inl empty ↦
              rw (found, empty, same, found')
                (counts_at-erase t j m ∙ rw same (sym (is_zero_sound (lower_counts label c) empty)))
          | inr left ↦
              rw (found, left, same, found')
                (counts_at-insert t j (lower_counts label c) m ∙ rw same)
        ]
    | inr other ↦ elim (Bool-cases (is_zero (lower_counts label c))) [
      | inl empty ↦ rw (found, empty, other) (counts_at-erase t j m ∙ rw other)
      | inr left ↦
          rw (found, left, other) (counts_at-insert t j (lower_counts label c) m ∙ rw other)
    ]
  ]
]

pub counts_at-untrain_tokens :
    (label : Label) (tokens : List Text) (m : Object TokenCounts) (j : Text)
    → Distinct tokens
    → counts_at (untrain_tokens label tokens m) j
      ≡ (if contains tokens j then lower_counts label (counts_at m j) else counts_at m j)
unfolding untrain_tokens
counts_at-untrain_tokens label [] m j d = refl
counts_at-untrain_tokens label (t ∷ tokens) m j (d, ds) =
    let m' = untrain_token label t (lookup t m) m in
    let now = counts_at-untrain_token label t j m in
    elim (Bool-cases (text_beq t j)) [
      | inl same ↦
          let gone : contains tokens j ≡ false =
            absent j tokens (rw (← (text_beq_iff t j).0 same) d) in
          rw same (counts_at-untrain_tokens label tokens m' j ds ∙ rw gone (now ∙ rw same))
      | inr other ↦ rw other (
          counts_at-untrain_tokens label tokens m' j ds
          ∙ ap (λ c. if contains tokens j then lower_counts label c else c) (now ∙ rw other))
    ]

pub length-train_tokens :
    (label : Label) (tokens : List Text) (m : Object TokenCounts)
    → length (train_tokens label tokens m) ≤ length m + length tokens
unfolding train_tokens
length-train_tokens label [] m = omega arith
length-train_tokens label (t ∷ tokens) m =
    let m' = insert t (raise label (counts_at m t)) m in
    omega
      (arith, length-train_tokens label tokens m', length-insert t (raise label (counts_at m t)) m)

min_add_one-sub_one : (m n : ℕ) → n < m → min (n + 1) m - 1 ≡ n
min_add_one-sub_one m n h = omega arith

pub lower-raise :
    (label : Label) (c : TokenCounts)
    → c.junk < max_safe_integer
    → c.good < max_safe_integer
    → lower_counts label (raise label c) ≡ c
lower-raise junk c j g =
    ap (λ n. record c { junk = n }) (min_add_one-sub_one max_safe_integer c.junk j)
lower-raise good c j g =
    ap (λ n. record c { good = n }) (min_add_one-sub_one max_safe_integer c.good g)

pub prune_tokens_of_le :
    (u : Unicode) (m : Object TokenCounts) → length m ≤ model_token_limit → prune_tokens u m ≡ m
unfolding prune_tokens
prune_tokens_of_le u m h = ground arith

pub length-prune_tokens :
    (u : Unicode) (m : Object TokenCounts) → length (prune_tokens u m) ≤ model_token_limit
unfolding prune_tokens
length-prune_tokens u m = elim (Bool-cases (leb (length m) model_token_limit)) [
  | inl fits ↦ rw fits (ground arith)
  | inr large ↦ rw large (length-take_le model_token_limit (sort (compare_entries u) m))
]
