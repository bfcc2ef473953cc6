-- ===== src/Tags/Names.antt =====
-- src/shared/message-tags.ts: tag records, storage keys, and the names, colours and identifiers of
-- tags.
use material_email.Prelude.{
  ℕ, zero, suc, ◌+◌, Bool, true, false, ◌&&◌, ◌||◌, Option, none, some, List, [], ◌∷◌, ◌++◌, leb,
  nat_beq, if◌then◌else◌, length, take, all, contains, unique,
}
use material_email.Prelude.Text.{
  Text, text, text_eq, is_empty, is_space, trim, join, split, decimal, code_points, units,
}
use material_email.Runtime.{Unicode}
use material_email.Mail.{MessageSummary}

abbrev pub name_limit : ℕ
name_limit = 64

abbrev pub catalog_limit : ℕ
catalog_limit = 64

abbrev pub tags_per_message_limit : ℕ
tags_per_message_limit = 20

abbrev pub assignment_limit : ℕ
assignment_limit = 20_000

pub record MessageTag : Type 0 where
  pub id : Text
  pub name : Text
  pub colour : Text
  pub ordinal : ℕ
  pub built_in : Bool

abbrev built_in_tag : ℕ → Text → Text → Text → MessageTag
built_in_tag n i nm c = record { id = i; name = nm; colour = c; ordinal = n; built_in = true }

abbrev pub built_in_message_tags : List MessageTag
built_in_message_tags =
    built_in_tag 0 (text "important") (text "Important") (text "#c62828")
    ∷ built_in_tag 1 (text "work") (text "Work") (text "#1565c0")
    ∷ built_in_tag 2 (text "personal") (text "Personal") (text "#2e7d32")
    ∷ built_in_tag 3 (text "to-do") (text "To Do") (text "#ef6c00")
    ∷ built_in_tag 4 (text "later") (text "Later") (text "#6a1b9a")
    ∷ []

-- `TAG_KEY_SEPARATOR`
abbrev pub key_separator : ℕ
key_separator = 0

abbrev pub or_empty : Option Text → Text
or_empty none = []
or_empty (some s) = s

unfoldable pub message_tag_key : Text → Text → ℕ → Option Text → Text
message_tag_key account_id folder_path uid uid_validity =
    join (key_separator ∷ []) (account_id ∷ folder_path ∷ or_empty uid_validity ∷ decimal uid ∷ [])

unfoldable pub message_tag_key_for : MessageSummary → Text
unfolding message_tag_key
message_tag_key_for message =
    message_tag_key message.account_id message.folder_path message.uid message.uid_validity

-- the account of four parts, if it is not empty
abbrev account_part : List Text → Option Text
account_part (account ∷ folder ∷ validity ∷ uid ∷ []) =
    if is_empty account then none else some account
account_part _ = none

abbrev folder_part : List Text → Option Text
folder_part (account ∷ folder ∷ validity ∷ uid ∷ []) = some folder
folder_part _ = none

unfoldable pub message_tag_key_account_id : Text → Option Text
message_tag_key_account_id k = account_part (split key_separator k)

unfoldable pub message_tag_key_folder_path : Text → Option Text
message_tag_key_folder_path k = folder_part (split key_separator k)

-- `s.replace(/\s+/gu, " ")`; the flag says that the unit before was white space
unfoldable pub collapse_spaces : Bool → Text → Text
unfolding is_space
collapse_spaces after_space [] = []
collapse_spaces after_space (c ∷ s) =
    let space = is_space c in
    let rest = collapse_spaces space s in
    if space then (if after_space then rest else 0x20 ∷ rest) else c ∷ rest

-- `/^#[0-9a-f]{n}$/u` and lower case, on ASCII
abbrev pub is_hex_digit : ℕ → Bool
is_hex_digit c = (leb b'0' c && leb c b'9') || (leb b'a' c && leb c b'f')

abbrev pub is_colour : ℕ → Text → Bool
is_colour n [] = false
is_colour n (c ∷ s) = nat_beq c b'#' && (nat_beq (length s) n && all is_hex_digit s)

abbrev double_units : Text → Text
double_units [] = []
double_units (c ∷ s) = c ∷ c ∷ double_units s

abbrev expand_colour : Text → Text
expand_colour [] = []
expand_colour (c ∷ s) = b'#' ∷ double_units s

-- Runs of code points that are neither letters nor numbers become one dash; the flag says that the
-- code point before was in such a run.
unfoldable pub dash_runs : (ℕ → Bool) → Bool → List ℕ → Text
unfolding units
dash_runs is_word in_run [] = []
dash_runs is_word in_run (p ∷ ps) =
    let word = is_word p in
    let rest = dash_runs is_word (if word then false else true) ps in
    if word then units p ++ rest else if in_run then rest else b'-' ∷ rest

-- `s.replace(/^-+|-+$/gu, "")`
unfoldable pub strip_dashes_start : Text → Text
strip_dashes_start [] = []
strip_dashes_start (c ∷ s) = if nat_beq c b'-' then strip_dashes_start s else c ∷ s

abbrev keep_dash : ℕ → Text → Text
keep_dash c [] = if nat_beq c b'-' then [] else c ∷ []
keep_dash c (d ∷ s) = c ∷ d ∷ s

unfoldable pub strip_dashes_end : Text → Text
strip_dashes_end [] = []
strip_dashes_end (c ∷ s) = keep_dash c (strip_dashes_end s)

abbrev pub or_else : Text → Text → Text
or_else [] fallback = fallback
or_else (c ∷ s) fallback = c ∷ s

-- the loop of `uniqueTagId`: `rounds` suffixes from `suffix` on
unfoldable pub first_free_suffix : Text → List Text → ℕ → ℕ → Option Text
first_free_suffix candidate taken zero suffix = none
first_free_suffix candidate taken (suc rounds) suffix =
    let next = candidate ++ b'-' ∷ decimal suffix in
    let rest = first_free_suffix candidate taken rounds (suc suffix) in
    if contains taken next then rest else some next

abbrev pub found_or : Option Text → Text → Text
found_or none fallback = fallback
found_or (some s) fallback = s

-- `taken` lists the identifiers from which the set is made.
unfoldable pub unique_tag_id : Text → List Text → Text
unfolding first_free_suffix
unique_tag_id candidate taken =
    if contains taken candidate
    then found_or (first_free_suffix candidate taken catalog_limit 2)
        (candidate ++ b'-' ∷ decimal (length (unique taken) + 1))
    else candidate

module _ (u : Unicode) where
  unfoldable pub normalize_message_tag_name : Text → Text
  unfolding collapse_spaces trim
  normalize_message_tag_name value = take name_limit (trim (collapse_spaces false (u.nfkc value)))

  unfoldable pub normalize_message_tag_colour : Text → Option Text
  unfolding trim
  normalize_message_tag_colour value =
      let candidate = u.lower (trim value) in
      let expanded = if is_colour 3 candidate then expand_colour candidate else candidate in
      if is_colour 6 expanded then some expanded else none

  unfoldable pub message_tag_id : Text → Text
  unfolding normalize_message_tag_name dash_runs strip_dashes_start strip_dashes_end code_points
  message_tag_id name =
      let folded = u.lower (normalize_message_tag_name name) in
      let dashed = dash_runs u.is_letter_number false (code_points folded) in
      or_else (take name_limit (strip_dashes_end (strip_dashes_start dashed))) (text "tag")
