-- ===== src/Tests/Tags.antt =====
-- Tags: the theorems at a catalog of two tags.
use material_email.Prelude.{
  ℕ, ◌≡◌, ◌≢◌, ◌<◌, ◌≤◌, refl, ◌⊎◌, inl, inr, Bool, true, false, Option, none, some, List, [], ◌∷◌,
  ◌++◌, arith, contains, length, if◌then◌else◌,
}
use material_email.Prelude.Text.{text, text_beq, text_eq}
use material_email.Mail.{lookup}
use material_email.Tags.{
  MessageTag, MessageTagState, TagPatch, PatchNumber, catalog_limit, assignment_limit,
  unique_tag_id, sort_message_tags, create_message_tag, update_message_tag, delete_message_tag,
  ordered_tag_ids, set_message_tags, toggle_message_tag, retag_moved_message, forget_message_tags,
  message_tag_key, message_tag_key_account_id, message_tag_key_folder_path, or_nil, or_empty, ok,
}
use material_email.Tags.Fresh.{unique_tag_id_fresh}
use material_email.Tags.Catalogs.{IsCatalog, IsNewTag, create_message_tag-IsNewTag}
use material_email.Tags.Updates.{update_message_tag-IsCatalog}
use material_email.Tags.States.{IsTagState, set_message_tags-IsTagState}
use material_email.Tags.Deletion.{IsDeleted, delete_message_tag-IsDeleted}
use material_email.Tags.Reads.{lookup-retag_moved_message}
use material_email.Tags.Keys.{message_tag_key_parts}
use material_email.Tags.Schema.{message_tag_schema, create_message_tag-refused}
use material_email.Prelude.Text.Laws.{Lacks}
use material_email.Tags.Names.{key_separator}
use material_email.Tests.Data.{ascii, unequal}

abbrev work : MessageTag
work = record {
  id = text "work";
  name = text "Work";
  colour = text "#1565c0";
  ordinal = 1;
  built_in = true;
}

abbrev home : MessageTag
home = record {
  id = text "home";
  name = text "Home";
  colour = text "#aabbcc";
  ordinal = 2;
  built_in = false;
}

abbrev late : MessageTag
late = record {
  id = text "late";
  name = text "Late";
  colour = text "#aabbcc";
  ordinal = 64;
  built_in = false;
}

abbrev tags : List MessageTag
tags = work ∷ home ∷ []

abbrev state : MessageTagState
state = record { catalog = tags; assignments = (text "k", text "home" ∷ []) ∷ [] }

tags-IsCatalog : IsCatalog ascii tags
unfolding text_beq
tags-IsCatalog = record {
  bounded = omega arith;
  differ = (((unequal _ _ refl, unequal _ _ refl), tt), (tt, tt));
  entries = ((refl, omega arith, refl), ((refl, omega arith, refl), tt));
}

state-IsTagState : IsTagState ascii state
unfolding text_beq
state-IsTagState = record {
  catalog = tags-IsCatalog;
  assignments = record {
    bounded = omega arith;
    distinct = (tt, tt);
    entries = ((refl, omega arith, (refl, tt), (tt, tt)), tt);
  };
}

unique_tag_id_fresh_example :
    contains (text "a" ∷ []) (unique_tag_id (text "a") (text "a" ∷ [])) ≡ false
unique_tag_id_fresh_example = unique_tag_id_fresh (text "a") (text "a" ∷ []) (omega arith)

work-IsCatalog : IsCatalog ascii (work ∷ [])
unfolding text_beq
work-IsCatalog = record {
  bounded = omega arith;
  differ = (tt, tt);
  entries = ((refl, omega arith, refl), tt);
}

created : create_message_tag ascii (work ∷ []) (text " Home") (text "#ABC") ≡ ok home
unfolding create_message_tag material_email.Tags.normalize_message_tag_name text_beq
    material_email.Tags.normalize_message_tag_colour unique_tag_id material_email.Tags.next_ordinal
    material_email.Tags.message_tag_id
created = refl

create_message_tag-IsNewTag_example : IsNewTag ascii (work ∷ []) (text " Home") (text "#ABC") home
create_message_tag-IsNewTag_example =
    create_message_tag-IsNewTag ascii (work ∷ []) (text " Home") (text "#ABC") home created

abbrev recolour : TagPatch
recolour = record { name = none; colour = some (text "#FFF"); ordinal = none }

abbrev recoloured : List MessageTag
recoloured = work ∷ record home { colour = text "#ffffff" } ∷ []

updated : update_message_tag ascii tags (text "home") recolour ≡ ok recoloured
unfolding update_message_tag text_beq material_email.Tags.normalize_message_tag_colour
    material_email.Prelude.is_space material_email.Prelude.sort
updated = refl

update_message_tag-IsCatalog_example : IsCatalog ascii recoloured
update_message_tag-IsCatalog_example =
    update_message_tag-IsCatalog ascii tags (text "home") recolour recoloured tags-IsCatalog updated

set_message_tags-IsTagState_example :
    IsTagState ascii (set_message_tags ascii state (text "j") (text "work" ∷ []))
set_message_tags-IsTagState_example =
    set_message_tags-IsTagState ascii state (text "j") (text "work" ∷ []) state-IsTagState

abbrev toggled_state : MessageTagState
toggled_state = record {
  catalog = tags;
  assignments = (text "k", text "work" ∷ text "home" ∷ []) ∷ [];
}

toggled : toggle_message_tag ascii state (text "k") (text "work") true ≡ ok toggled_state
unfolding toggle_message_tag text_beq sort_message_tags material_email.Prelude.sort lookup
    material_email.Mail.insert
toggled = refl

abbrev deleted_state : MessageTagState
deleted_state = record { catalog = work ∷ []; assignments = [] }

deleted : delete_message_tag state (text "home") ≡ ok deleted_state
unfolding delete_message_tag text_beq
deleted = refl

delete_message_tag-IsDeleted_example : IsDeleted ascii state (text "home") deleted_state
delete_message_tag-IsDeleted_example =
    delete_message_tag-IsDeleted ascii state (text "home") deleted_state state-IsTagState deleted

under_k : lookup (text "k") state.assignments ≡ some (text "home" ∷ [])
unfolding lookup text_beq
under_k = refl

lookup-retag_moved_message_example :
    lookup (text "j") (retag_moved_message state (text "k") (some (text "j"))).assignments ≡ (
      if text_beq (text "j") (text "j")
      then some (text "home" ∷ [])
      else if text_beq (text "k") (text "j")
      then none
      else lookup (text "j") state.assignments)
lookup-retag_moved_message_example =
    lookup-retag_moved_message state (text "k") (text "j") (text "j") (text "home" ∷ [])
      (omega arith) refl under_k

a-Lacks : Lacks key_separator (text "a")
a-Lacks = (ground arith, tt)

f-Lacks : Lacks key_separator (text "f")
f-Lacks = (ground arith, tt)

message_tag_key_parts_example :
    (message_tag_key_account_id (message_tag_key (text "a") (text "f") 7 none) ≡ some (text "a"))
    × (message_tag_key_folder_path (message_tag_key (text "a") (text "f") 7 none) ≡ some (text "f"))
message_tag_key_parts_example =
    message_tag_key_parts (text "a") (text "f") 7 none refl a-Lacks f-Lacks tt

abbrev above : MessageTag
above = record {
  id = text "home";
  name = text "Home";
  colour = text "#aabbcc";
  ordinal = 65;
  built_in = false;
}

created_above : create_message_tag ascii (late ∷ []) (text " Home") (text "#ABC") ≡ ok above
unfolding create_message_tag material_email.Tags.normalize_message_tag_name text_beq
    material_email.Tags.normalize_message_tag_colour unique_tag_id material_email.Tags.next_ordinal
    material_email.Tags.message_tag_id
created_above = refl

create_message_tag-refused_example : message_tag_schema ascii above ≡ false
create_message_tag-refused_example =
    create_message_tag-refused ascii (late ∷ []) (text " Home") (text "#ABC") above created_above
      (inl refl)
