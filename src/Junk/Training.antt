-- ===== src/Junk/Training.antt =====
-- What training and untraining do to the counts of a junk model (src/shared/junk-classifier.ts).
use material_email.Prelude.{
  ℕ, ◌+◌, ◌-◌, ◌≤◌, ◌<◌, ◌≡◌, ◌≢◌, ap, ◌∙◌, arith, length, length-take_le, contains,
  unique-distinct, AllPairs-take, if◌then◌else◌, Bool-cases, inl, inr,
}
use material_email.Prelude.Text.{Text, text_eq}
use material_email.Runtime.{Unicode}
use material_email.Junk.{
  model_token_limit, tokens_per_message_limit, max_safe_integer, JunkModel, TrainingSample, Label,
  raise, lower_counts, train_tokens, junk_tokens, train_junk_model, untrain_junk_model,
}
use material_email.Junk.Counts.{
  counts_at, Distinct, counts_at-train_tokens, counts_at-untrain_tokens, length-train_tokens,
  lower-raise, prune_tokens_of_le, length-prune_tokens,
}

module _ (u : Unicode) where
  junk_tokens-Distinct : (sample : TrainingSample) → Distinct (junk_tokens u sample)
  unfolding junk_tokens
  junk_tokens-Distinct sample =
      AllPairs-take (λ a b. b ≢ a) tokens_per_message_limit _ (unique-distinct _)

  length-junk_tokens :
      (sample : TrainingSample) → length (junk_tokens u sample) ≤ tokens_per_message_limit
  unfolding junk_tokens
  length-junk_tokens sample = length-take_le tokens_per_message_limit _

  -- However much the model is trained, it holds no more tokens than its limit.
  pub length-train_junk_model :
      (model : JunkModel) (sample : TrainingSample) (label : Label)
      → length (train_junk_model u model sample label).tokens ≤ model_token_limit
  unfolding train_junk_model
  length-train_junk_model model sample label =
      length-prune_tokens u (train_tokens label (junk_tokens u sample) model.tokens)

  -- With room for the tokens of one message, training raises the count of each token of the sample
  -- by one under its label, whatever occurs twice, and leaves the counts of all others.
  pub counts_at-train_junk_model :
      (model : JunkModel) (sample : TrainingSample) (label : Label) (j : Text)
      → length model.tokens + tokens_per_message_limit ≤ model_token_limit
      → counts_at (train_junk_model u model sample label).tokens j ≡ (
          if contains (junk_tokens u sample) j
          then raise label (counts_at model.tokens j)
          else counts_at model.tokens j)
  unfolding train_junk_model
  counts_at-train_junk_model model sample label j room =
      let trained = train_tokens label (junk_tokens u sample) model.tokens in
      ap (λ m. counts_at m j)
        (prune_tokens_of_le u trained (
          omega (
            arith,
            length-train_tokens label (junk_tokens u sample) model.tokens,
            length-junk_tokens sample,
          )))
      ∙ counts_at-train_tokens label (junk_tokens u sample) model.tokens j
          (junk_tokens-Distinct sample)

  counts_at-untrain_junk_model :
      (model : JunkModel) (sample : TrainingSample) (label : Label) (j : Text)
      → counts_at (untrain_junk_model u model sample label).tokens j ≡ (
          if contains (junk_tokens u sample) j
          then lower_counts label (counts_at model.tokens j)
          else counts_at model.tokens j)
  unfolding untrain_junk_model
  counts_at-untrain_junk_model model sample label j =
      counts_at-untrain_tokens label (junk_tokens u sample) model.tokens j
        (junk_tokens-Distinct sample)

  restored_counts :
      (model : JunkModel) (sample : TrainingSample) (label : Label) (j : Text)
      → length model.tokens + tokens_per_message_limit ≤ model_token_limit
      → ((counts_at model.tokens j).junk < max_safe_integer)
        × ((counts_at model.tokens j).good < max_safe_integer)
      → counts_at
          (untrain_junk_model u (train_junk_model u model sample label) sample label).tokens
          j
        ≡ counts_at model.tokens j
  restored_counts model sample label j room safe =
      let raised = counts_at-train_junk_model model sample label j room in
      counts_at-untrain_junk_model (train_junk_model u model sample label) sample label j
      ∙ elim (Bool-cases (contains (junk_tokens u sample) j)) [
        | inl known ↦ rw known (
            ap (lower_counts label) (raised ∙ rw known)
            ∙ lower-raise label (counts_at model.tokens j) safe.0 safe.1)
        | inr other ↦ rw other (raised ∙ rw other)
      ]

  add-sub : (n k : ℕ) → n + k - k ≡ n
  add-sub n k = omega arith

  -- To untrain a message after training it gives back both message counts and the counts of every
  -- token, if the model has room for its tokens and no count is at the largest safe integer.
  pub untrain-train :
      (model : JunkModel) (sample : TrainingSample) (label : Label)
      → length model.tokens + tokens_per_message_limit ≤ model_token_limit
      → ((j : Text)
          → ((counts_at model.tokens j).junk < max_safe_integer)
            × ((counts_at model.tokens j).good < max_safe_integer))
      → let after = untrain_junk_model u (train_junk_model u model sample label) sample label in
        (after.junk_message_count ≡ model.junk_message_count)
        × (after.good_message_count ≡ model.good_message_count)
        × ((j : Text) → counts_at after.tokens j ≡ counts_at model.tokens j)
  untrain-train model sample label room safe = (
    unfold untrain_junk_model train_junk_model in add-sub model.junk_message_count _,
    unfold untrain_junk_model train_junk_model in add-sub model.good_message_count _,
    λ j. restored_counts model sample label j room (safe j),
  )
