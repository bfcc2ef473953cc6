-- ===== src/Tests/Data.antt =====
-- A runtime of plain ASCII texts and natural numbers, and the tags of the tests.
use material_email.Prelude.{
  ℕ, ◌+◌, ◌*◌, ◌-◌, ◌/◌, ◌≡◌, ◌≢◌, ◌&&◌, ◌||◌, true, false, none, some, [], ◌∷◌, map, arith, ltb,
  leb, nat_beq, if◌then◌else◌, compare, compare-IsComparator, key-IsComparator, max,
}
use material_email.Prelude.Text.{Text, text, text_beq, text_beq_iff, includes}
use material_email.Mail.{MessageSummary}
use material_email.Runtime.{Unicode, RegExp, Numbers}

abbrev lower_unit : ℕ → ℕ
lower_unit c = if leb 65 c && leb c 90 then c + 32 else c

-- Texts are ordered by their weight.
abbrev weight : ℕ → Text → ℕ
weight n [] = n
weight n (c ∷ s) = weight (n * 65_536 + c + 1) s

abbrev pub ascii : Unicode
ascii = record {
  lower = map lower_unit;
  nfkc = λ s. s;
  locale_compare = λ s t. compare (weight 0 s) (weight 0 t);
  is_letter_number =
      λ c. (leb 48 c && leb c 57) || (leb 65 c && leb c 90) || (leb 97 c && leb c 122);
  comparator = key-IsComparator (weight 0) compare-IsComparator;
}

-- An engine that looks for the source itself.
abbrev pub literal_engine : RegExp
literal_engine = record { compile = λ source flags. some (λ value. includes value source) }

abbrev number_of : ℕ → Text → ℕ
number_of n [] = n
number_of n (c ∷ s) = number_of (n * 10 + (c - 48)) s

abbrev pub naturals : Numbers
naturals = record {
  Num = ℕ;
  of_ℕ = λ n. n;
  parse = number_of 0;
  date_parse = number_of 0;
  is_finite = λ n. true;
  less = ltb;
  equal = nat_beq;
  sub = λ m n. m - n;
  div = λ m n. m / n;
  max = max;
  trunc = λ n. n;
}

pub unequal : (s t : Text) → text_beq s t ≡ false → s ≢ t
unequal s t h e = ground (arith, (text_beq_iff s t).1 e)

abbrev pub message : MessageSummary
message = record {
  id = text "m";
  account_id = text "acc";
  folder_path = text "inbox";
  uid = 7;
  uid_validity = none;
  message_id = none;
  in_reply_to = none;
  references = [];
  from = record { name = text "Ann"; address = text "ann@example.org" } ∷ [];
  to = [];
  cc = [];
  subject = text "Hello there";
  date = text "10";
  preview = text "Hello";
  unread = true;
  starred = false;
  has_attachments = false;
  size = 100;
}
