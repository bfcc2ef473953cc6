-- ===== src/Junk.antt =====
-- src/shared/junk-classifier.ts: the junk model, its tokens and its training.
pub mod Training
pub mod Counts
use material_email.Prelude.{
  ℕ, zero, suc, ◌+◌, ◌-◌, ◌^◌, min, max, Bool, true, false, ◌&&◌, ◌||◌, Option, none, some, List,
  [], ◌∷◌, ◌++◌, map, leb, ltb, nat_beq, if◌then◌else◌, length, take, get_elem?, unique, contains,
  compare, sort, then_compare, Ordering, nat_eq,
}
use material_email.Prelude.Text.{Text, text, text_eq, is_empty, split, code_points, units}
use material_email.Runtime.{Unicode}
use material_email.Mail.{Address, MessageSummary, Object, lookup, insert, erase}

abbrev pub model_token_limit : ℕ
model_token_limit = 20_000

abbrev pub tokens_per_message_limit : ℕ
tokens_per_message_limit = 200

abbrev token_length_min : ℕ
token_length_min = 3

abbrev token_length_max : ℕ
token_length_max = 32

abbrev sample_character_limit : ℕ
sample_character_limit = 20_000

-- `Number.MAX_SAFE_INTEGER`
abbrev pub max_safe_integer : ℕ
max_safe_integer = 2 ^ 53 - 1

abbrev pub training_minimum : ℕ
training_minimum = 5

pub record TokenCounts : Type 0 where
  pub junk : ℕ
  pub good : ℕ

pub record JunkModel : Type 0 where
  pub junk_message_count : ℕ
  pub good_message_count : ℕ
  pub tokens : Object TokenCounts

pub record TrainingSample : Type 0 where
  pub subject : Text
  pub from : List Address
  pub body : Text

pub data Label : Type 0 where
  junk good : Label

abbrev pub empty_junk_model : JunkModel
empty_junk_model = record { junk_message_count = 0; good_message_count = 0; tokens = [] }

-- the marks of `WORD_PATTERN` beside letters and numbers: $ ! £ € ¥ % ' ’ -
abbrev is_word_mark : ℕ → Bool
is_word_mark p = contains (0x24 ∷ 0x21 ∷ 0xa3 ∷ 0x20ac ∷ 0xa5 ∷ 0x25 ∷ 0x27 ∷ 0x2019 ∷ 0x2d ∷ []) p

-- a word that goes on, in front of the words behind it
abbrev extend_word : Bool → Text → List Text → List Text
extend_word false word words = word ∷ words
extend_word true word [] = word ∷ []
extend_word true word (next ∷ words) = (word ++ next) ∷ words

abbrev first_is_word : (ℕ → Bool) → List ℕ → Bool
first_is_word is_word [] = false
first_is_word is_word (p ∷ ps) = is_word p

-- The matches of `WORD_PATTERN`: the longest runs of word characters.
unfoldable pub words_of : (ℕ → Bool) → List ℕ → List Text
unfolding units
words_of is_word [] = []
words_of is_word (p ∷ ps) =
    let words = words_of is_word ps in
    if is_word p then extend_word (first_is_word is_word ps) (units p) words else words

-- the words of a fitting length, with the prefix of their source
unfoldable pub fitting_tokens : Text → List Text → List Text
fitting_tokens prefix [] = []
fitting_tokens prefix (value ∷ words) =
    let rest = fitting_tokens prefix words in
    if ltb (length value) token_length_min || ltb token_length_max (length value)
    then rest
    else (prefix ++ (b':' ∷ value)) ∷ rest

abbrev pub counts_or_zero : Option TokenCounts → TokenCounts
counts_or_zero none = record { junk = 0; good = 0 }
counts_or_zero (some counts) = counts

abbrev pub raise : Label → TokenCounts → TokenCounts
raise junk counts = record counts { junk = min (counts.junk + 1) max_safe_integer }
raise good counts = record counts { good = min (counts.good + 1) max_safe_integer }

-- `Math.max(0, n - 1)` is the subtraction that stops at 0.
abbrev pub lower_counts : Label → TokenCounts → TokenCounts
lower_counts junk counts = record counts { junk = counts.junk - 1 }
lower_counts good counts = record counts { good = counts.good - 1 }

abbrev pub is_zero : TokenCounts → Bool
is_zero counts = nat_beq counts.junk 0 && nat_beq counts.good 0

-- the loop of `trainJunkModel`
unfoldable pub train_tokens : Label → List Text → Object TokenCounts → Object TokenCounts
train_tokens label [] tokens = tokens
train_tokens label (token ∷ rest) tokens =
    train_tokens label rest
      (insert token (raise label (counts_or_zero (lookup token tokens))) tokens)

abbrev pub untrain_token :
    Label → Text → Option TokenCounts → Object TokenCounts → Object TokenCounts
untrain_token label token none tokens = tokens
untrain_token label token (some existing) tokens =
    let next = lower_counts label existing in
    if is_zero next then erase token tokens else insert token next tokens

-- the loop of `untrainJunkModel`
unfoldable pub untrain_tokens : Label → List Text → Object TokenCounts → Object TokenCounts
untrain_tokens label [] tokens = tokens
untrain_tokens label (token ∷ rest) tokens =
    untrain_tokens label rest (untrain_token label token (lookup token tokens) tokens)

abbrev if_junk : Label → ℕ
if_junk junk = 1
if_junk good = 0

abbrev if_good : Label → ℕ
if_good junk = 0
if_good good = 1

abbrev domain_token : (Text → Text) → List Text → List Text
domain_token lower [] = []
domain_token lower (local ∷ []) = []
domain_token lower (local ∷ domain ∷ parts) =
    if is_empty domain then [] else (text "domain:" ++ take token_length_max (lower domain)) ∷ []

abbrev body_or : Option Text → Text → Text
body_or none preview = preview
body_or (some b) preview = b

unfoldable pub junk_sample_from_message : MessageSummary → Option Text → TrainingSample
junk_sample_from_message message body = record {
  subject = message.subject;
  from = message.from;
  body = body_or body message.preview;
}

module _ (u : Unicode) where
  abbrev is_word : ℕ → Bool
  is_word p = u.is_letter_number p || is_word_mark p

  unfoldable pub tokenize : Text → Text → List Text
  unfolding words_of fitting_tokens code_points
  tokenize source prefix =
      let bounded = u.lower (take sample_character_limit (u.nfkc source)) in
      take tokens_per_message_limit (fitting_tokens prefix (words_of is_word (code_points bounded)))

  unfoldable pub address_tokens : List Address → List Text
  unfolding tokenize split
  address_tokens [] = []
  address_tokens (entry ∷ addresses) =
      domain_token u.lower (split b'@' entry.address)
      ++ (tokenize (entry.name ++ (0x20 ∷ entry.address)) (text "from") ++ address_tokens addresses)

  unfoldable pub junk_tokens : TrainingSample → List Text
  unfolding tokenize address_tokens
  junk_tokens sample = take tokens_per_message_limit (
      unique (
        address_tokens (take 50 sample.from)
        ++ (tokenize sample.subject (text "subject") ++ tokenize sample.body (text "body"))))

  -- the order of `pruneTokens`: the highest total first, then by name
  abbrev compare_entries : Text × TokenCounts → Text × TokenCounts → Ordering
  compare_entries left right =
      then_compare (compare (right.1.junk + right.1.good) (left.1.junk + left.1.good))
        (u.locale_compare left.0 right.0)

  unfoldable pub prune_tokens : Object TokenCounts → Object TokenCounts
  prune_tokens tokens =
      if leb (length tokens) model_token_limit
      then tokens
      else take model_token_limit (sort compare_entries tokens)

  unfoldable pub train_junk_model : JunkModel → TrainingSample → Label → JunkModel
  unfolding train_tokens prune_tokens
  train_junk_model model sample label = record {
    junk_message_count = model.junk_message_count + if_junk label;
    good_message_count = model.good_message_count + if_good label;
    tokens = prune_tokens (train_tokens label (junk_tokens sample) model.tokens);
  }

  unfoldable pub untrain_junk_model : JunkModel → TrainingSample → Label → JunkModel
  unfolding untrain_tokens
  untrain_junk_model model sample label = record {
    junk_message_count = model.junk_message_count - if_junk label;
    good_message_count = model.good_message_count - if_good label;
    tokens = untrain_tokens label (junk_tokens sample) model.tokens;
  }

pub record JunkModelSummary : Type 0 where
  pub token_count : ℕ
  pub junk_message_count : ℕ
  pub good_message_count : ℕ
  pub ready : Bool

unfoldable pub junk_model_summary : JunkModel → JunkModelSummary
junk_model_summary model = record {
  token_count = length model.tokens;
  junk_message_count = model.junk_message_count;
  good_message_count = model.good_message_count;
  ready =
      leb training_minimum model.junk_message_count
      && leb training_minimum model.good_message_count;
}
