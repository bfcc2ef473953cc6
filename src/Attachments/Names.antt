-- ===== src/Attachments/Names.antt =====
-- src/shared/attachment-safety.ts: what the name and the MIME type of an attachment say.
use material_email.Prelude.{
  ℕ, Bool, false, not, ◌&&◌, ◌||◌, Option, none, some, List, [], ◌∷◌, any, contains, leb, nat_beq,
  if◌then◌else◌,
}
use material_email.Prelude.Text.{Text, text_eq, is_empty, trim, ends_with, split}
use material_email.Runtime.{Unicode}
use material_email.Mail.{lookup}
use material_email.Attachments.Tables.{
  deceptive_lead_extensions, common_compound_extensions, generic_mime_types,
  mime_types_by_extension,
}

abbrev pub is_slash : ℕ → Bool
is_slash c = nat_beq c 0x5c || nat_beq c 0x2f

abbrev pub has_slash : Text → Bool
has_slash [] = false
has_slash (c ∷ s) = is_slash c || has_slash s

-- What follows the last slash of either kind.
unfoldable pub filename_only : Text → Text
filename_only [] = []
filename_only (c ∷ s) =
    let rest = filename_only s in if has_slash s then rest else if is_slash c then s else c ∷ s

abbrev pub is_dot_or_space : ℕ → Bool
is_dot_or_space c = nat_beq c 0x2e || nat_beq c 0x20

abbrev pub keep_before : ℕ → Text → Text
keep_before c [] = if is_dot_or_space c then [] else c ∷ []
keep_before c (d ∷ s) = c ∷ d ∷ s

-- `value.replace(/[. ]+$/u, "")`
unfoldable pub strip_end : Text → Text
strip_end [] = []
strip_end (c ∷ s) = keep_before c (strip_end s)

abbrev cut_step : ℕ → Text → Option (Text × Text) → Option (Text × Text)
cut_step c s none = if nat_beq c 0x2e then some ([], c ∷ s) else none
cut_step c s (some (before, after)) = some (c ∷ before, after)

-- A text cut in front of its last dot, where it has one.
unfoldable pub cut_last_dot : Text → Option (Text × Text)
cut_last_dot [] = none
cut_last_dot (c ∷ s) = cut_step c s (cut_last_dot s)

-- the extension that starts at the last dot, unless that is the first unit
abbrev extension_from : (Text → Text) → Option (Text × Text) → Text
extension_from lower none = []
extension_from lower (some ([], after)) = []
extension_from lower (some (c ∷ before, after)) = lower after

abbrev has_deceptive_lead : Option (Text × Text) → Bool
has_deceptive_lead none = false
has_deceptive_lead (some ([], after)) = false
has_deceptive_lead (some (c ∷ before, after)) = contains deceptive_lead_extensions after

abbrev has_lead : Option (Text × Text) → Bool
has_lead none = false
has_lead (some ([], after)) = false
has_lead (some (c ∷ before, after)) = has_deceptive_lead (cut_last_dot (c ∷ before))

unfoldable pub ends_in_dot_or_space : Text → Bool
ends_in_dot_or_space [] = false
ends_in_dot_or_space (c ∷ []) = is_dot_or_space c
ends_in_dot_or_space (c ∷ d ∷ s) = ends_in_dot_or_space (d ∷ s)

abbrev pub is_bidirectional_control : ℕ → Bool
is_bidirectional_control c =
    nat_beq c 0x61c
    || nat_beq c 0x200e
    || nat_beq c 0x200f
    || (leb 0x202a c && leb c 0x202e)
    || (leb 0x2066 c && leb c 0x2069)

unfoldable pub has_bidirectional_control : Text → Bool
has_bidirectional_control s = any is_bidirectional_control s

abbrev first_part : List Text → Text
first_part [] = []
first_part (part ∷ parts) = part

abbrev is_unexpected : Option (List Text) → Text → Bool
is_unexpected none mime_type = false
is_unexpected (some expected) mime_type = not (contains expected mime_type)

module _ (u : Unicode) where
  unfoldable pub extension_of : Text → Text
  unfolding strip_end cut_last_dot
  extension_of filename = extension_from u.lower (cut_last_dot (strip_end filename))

  unfoldable pub has_deceptive_double_extension : Text → Bool
  unfolding strip_end cut_last_dot ends_with deceptive_lead_extensions common_compound_extensions
  has_deceptive_double_extension filename =
      let normalized = u.lower (strip_end filename) in
      if any (ends_with normalized) common_compound_extensions
      then false
      else has_lead (cut_last_dot normalized)

  unfoldable pub normalized_mime_type : Text → Text
  unfolding split trim
  normalized_mime_type content_type = u.lower (trim (first_part (split 0x3b content_type)))

  unfoldable pub has_mime_extension_mismatch : Text → Text → Bool
  unfolding normalized_mime_type generic_mime_types mime_types_by_extension
  has_mime_extension_mismatch extension content_type =
      let mime_type = normalized_mime_type content_type in
      if is_empty extension || contains generic_mime_types mime_type
      then false
      else is_unexpected (lookup extension mime_types_by_extension) mime_type
