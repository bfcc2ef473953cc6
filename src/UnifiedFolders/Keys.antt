-- ===== src/UnifiedFolders/Keys.antt =====
-- The keys of collections that a unified folder reads (src/shared/unified-folders.ts).
use material_email.Prelude.{
  ◌≡◌, refl, sym, ap, ◌∙◌, Bool, true, ◌&&◌, ◌||◌, some, List, [], ◌∷◌, ◌++◌, map, filter, any,
  contains, nat_beq, nat_beq_iff, any-append, any-map, any-filter, Bool-cases, Option-cases, inl,
  inr,
}
use material_email.Prelude.Text.{Text, text_eq, text_beq, is_empty}
use material_email.Mail.{MessageSummary, FolderSummary, Object, lookup}
use material_email.Organization.State.{cut}
use material_email.UnifiedFolders.{
  UnifiedFolderKind, inbox, starred, unread, UnifiedFolderCache, cache_key_parts, folders_or_nil,
  is_inbox_role, inbox_collections,
}

-- the key of the collection of a message
abbrev pub collection_key : MessageSummary → Text
collection_key message = message.account_id ++ 0 ∷ message.folder_path

-- The key is that of a folder with the role of an inbox, of one of the accounts.
abbrev pub is_inbox_key : Object (List FolderSummary) → List Text → Text → Bool
is_inbox_key folders accounts key =
    any
      (λ account.
        any (λ (f : FolderSummary). is_inbox_role f.role && text_beq (account ++ 0 ∷ f.path) key)
          (folders_or_nil (lookup account folders)))
      accounts

-- What a unified folder is for: the inboxes of its accounts, the starred or the unread messages.
abbrev pub IsInFolder : UnifiedFolderKind → UnifiedFolderCache → MessageSummary → Type 0
IsInFolder inbox cache message =
    is_inbox_key cache.folders cache.account_ids (collection_key message) ≡ true
IsInFolder starred cache message = message.starred ≡ true
IsInFolder unread cache message = message.unread ≡ true

pub contains-inbox_collections :
    (folders : Object (List FolderSummary)) (accounts : List Text) (key : Text)
    → contains (inbox_collections folders accounts) key ≡ is_inbox_key folders accounts key
unfolding inbox_collections
contains-inbox_collections folders [] key = refl
contains-inbox_collections folders (account ∷ accounts) key =
    let candidates = folders_or_nil (lookup account folders) in
    let inboxes = filter (λ (f : FolderSummary). is_inbox_role f.role) candidates in
    let key_of = λ (f : FolderSummary). account ++ 0 ∷ f.path in
    any-append (λ k. text_beq k key) (map key_of inboxes) (inbox_collections folders accounts)
    ∙ rw
        (
          any-map (λ k. text_beq k key) key_of inboxes,
          any-filter (λ f. text_beq (key_of f) key) (λ (f : FolderSummary). is_inbox_role f.role)
              candidates,
          contains-inbox_collections folders accounts key,
        )
        refl

cut-key : (key a p : Text) → cut key ≡ some (a, p) → key ≡ a ++ 0 ∷ p
unfolding cut
cut-key [] a p h = absurd (cc)
cut-key (c ∷ s) a p h = elim (Bool-cases (nat_beq c 0)) [
  | inl separates ↦
      let e = rw separates at h in
      let none_before : [] ≡ a = cc in
      let behind : s ≡ p = cc in
      rw (sym none_before, sym behind, (nat_beq_iff c 0).0 separates) refl
  | inr goes_on ↦ elim (Option-cases (cut s)) [
    | inl missing ↦ absurd (let e = rw (goes_on, missing) at h in cc)
    | inr (parts, there) ↦
        let e = rw (goes_on, there) at h in
        let head : c ∷ parts.0 ≡ a = cc in
        let tail : parts.1 ≡ p = cc in
        rw (sym head, sym tail) (ap (λ l. c ∷ l) (cut-key s parts.0 parts.1 there))
  ]
]

-- A key is what its parts were made of.
pub cache_key_parts-key :
    (key account path : Text)
    → cache_key_parts key ≡ some (account, path)
    → key ≡ account ++ 0 ∷ path
unfolding cache_key_parts
cache_key_parts-key key account path h = elim (Option-cases (cut key)) [
  | inl missing ↦ absurd (let e = rw missing at h in cc)
  | inr (parts, there) ↦ elim (Bool-cases (is_empty parts.0 || is_empty parts.1)) [
    | inl blank ↦ absurd (let e = rw (there, blank) at h in cc)
    | inr filled ↦
        let e = rw (there, filled) at h in
        let same : parts ≡ (account, path) = cc in cut-key key account path (there ∙ ap some same)
  ]
]
