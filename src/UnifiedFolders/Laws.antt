-- ===== src/UnifiedFolders/Laws.antt =====
-- The lists of unified folders and their selection (src/shared/unified-folders.ts).
use material_email.Prelude.{
  ℕ, zero, suc, ◌≡◌, ◌≢◌, ◌<◌, refl, sym, subst, ap, ◌∙◌, ◌++◌, true, ◌&&◌, Option, none, some,
  List, [], ◌∷◌, map, any, contains, length, min, arith, inl, inr, Bool-cases, All, AllPairs,
  All-sort, AllPairs-sort, All-of_map, get_elem?, ◌-◌,
}
use material_email.Prelude.Text.{Text, text_eq, text_beq_iff, text_beq_refl}
use material_email.Runtime.{Unicode, Numbers}
use material_email.Mail.{
  MessageSummary, Object, lookup, HasDistinctKeys, insert-HasDistinctKeys, All-insert,
}
use material_email.UnifiedFolders.{
  UnifiedFolderKind, UnifiedFolderCache, kind_reads, accepts_message, set_if_absent,
  gather_messages, gather_collection, gather, value_of, compare_by_date,
  collect_cached_unified_messages, is_shown, has_message_id, select_stable_message_id,
  cache_key_parts, inbox_collections, sorted_collections,
}
use material_email.UnifiedFolders.Keys.{
  collection_key, is_inbox_key, IsInFolder, contains-inbox_collections, cache_key_parts-key,
}

-- What a folder lists: a message of one of its accounts that the folder is for.
abbrev pub IsListed : UnifiedFolderKind → UnifiedFolderCache → MessageSummary → Type 0
IsListed folder cache message =
    (contains cache.account_ids message.account_id ≡ true) × IsInFolder folder cache message

abbrev pub HasOtherId : MessageSummary → MessageSummary → Type 0
HasOtherId x y = x.id ≢ y.id

-- What the loop keeps: entries under the identifiers of messages to list, none twice.
abbrev IsGathered : UnifiedFolderKind → UnifiedFolderCache → Object MessageSummary → Type 0
IsGathered folder cache found =
    HasDistinctKeys found
    × All (λ e. (e.0 ≡ (value_of e).id) × IsListed folder cache (value_of e)) found

module _ (folder : UnifiedFolderKind) (cache : UnifiedFolderCache) where
  abbrev inboxes : List Text
  inboxes = inbox_collections cache.folders cache.account_ids

  -- A message that the tests let through is one that the folder is for.
  accepted-IsInFolder :
      (kind : UnifiedFolderKind) (account path : Text) (message : MessageSummary)
      → kind_reads kind inboxes (account ++ 0 ∷ path) ≡ true
      → accepts_message kind account path message ≡ true
      → IsInFolder kind cache message
  accepted-IsInFolder UnifiedFolderKind.inbox account path message k h =
      let same : message.account_id ≡ account =
        (text_beq_iff message.account_id account).0 (ground arith) in
      let there : message.folder_path ≡ path =
        (text_beq_iff message.folder_path path).0 (ground arith) in
      let key : collection_key message ≡ account ++ 0 ∷ path =
        ap (λ a. a ++ 0 ∷ message.folder_path) same ∙ ap (λ p. account ++ 0 ∷ p) there in
      subst (λ l. is_inbox_key cache.folders cache.account_ids l ≡ true) (sym key)
        (sym (contains-inbox_collections cache.folders cache.account_ids (account ++ 0 ∷ path)) ∙ k)
  accepted-IsInFolder UnifiedFolderKind.starred account path message k h = ground arith
  accepted-IsInFolder UnifiedFolderKind.unread account path message k h = ground arith

  set_if_absent-IsGathered :
      (earlier : Option MessageSummary) (message : MessageSummary) (found : Object MessageSummary)
      → IsListed folder cache message
      → IsGathered folder cache found
      → IsGathered folder cache (set_if_absent earlier message found)
  set_if_absent-IsGathered (some earlier) message found p g = g
  set_if_absent-IsGathered none message found p (d, h) = (
    insert-HasDistinctKeys message.id message found d,
    All-insert (λ e. (e.0 ≡ (value_of e).id) × IsListed folder cache (value_of e)) message.id
        message found (refl, p) h,
  )

  accepted-IsListed :
      (account path : Text) (message : MessageSummary)
      → contains cache.account_ids account ≡ true
      → kind_reads folder inboxes (account ++ 0 ∷ path) ≡ true
      → accepts_message folder account path message ≡ true
      → IsListed folder cache message
  accepted-IsListed account path message c k h =
      let same : message.account_id ≡ account =
        (text_beq_iff message.account_id account).0 (ground arith) in
      (
        subst (λ a. contains cache.account_ids a ≡ true) (sym same) c,
        accepted-IsInFolder folder account path message k h,
      )

  gather_messages-IsGathered :
      (account path : Text) (messages : List MessageSummary) (found : Object MessageSummary)
      → contains cache.account_ids account ≡ true
      → kind_reads folder inboxes (account ++ 0 ∷ path) ≡ true
      → IsGathered folder cache found
      → IsGathered folder cache (gather_messages folder account path messages found)
  unfolding gather_messages
  gather_messages-IsGathered account path [] found c k g = g
  gather_messages-IsGathered account path (message ∷ messages) found c k g =
      elim (Bool-cases (accepts_message folder account path message)) [
        | inl accepted ↦ rw accepted (
            gather_messages-IsGathered account path messages _ c k (
              set_if_absent-IsGathered (lookup message.id found) message found
                (accepted-IsListed account path message c k accepted) g))
        | inr refused ↦ rw refused (gather_messages-IsGathered account path messages found c k g)
      ]

  gather_collection-IsGathered :
      (key : Text) (parts : Option (Text × Text)) (messages : List MessageSummary)
      (found : Object MessageSummary)
      → ((account path : Text) → parts ≡ some (account, path) → key ≡ account ++ 0 ∷ path)
      → IsGathered folder cache found
      → IsGathered folder cache
          (gather_collection folder cache.account_ids inboxes key parts messages found)
  gather_collection-IsGathered key none messages found whole g = g
  gather_collection-IsGathered key (some (account, path)) messages found whole g =
      elim (Bool-cases (contains cache.account_ids account && kind_reads folder inboxes key)) [
        | inl accepted ↦ rw accepted (
            gather_messages-IsGathered account path messages found (ground arith)
              (subst (λ l. kind_reads folder inboxes l ≡ true) (whole account path refl)
                (ground arith))
              g)
        | inr refused ↦ rw refused g
      ]

  gather-IsGathered :
      (collections : Object (List MessageSummary)) (found : Object MessageSummary)
      → IsGathered folder cache found
      → IsGathered folder cache (gather folder cache.account_ids inboxes collections found)
  unfolding gather
  gather-IsGathered [] found g = g
  gather-IsGathered ((key, messages) ∷ collections) found g = gather-IsGathered collections _ (
      gather_collection-IsGathered key (cache_key_parts key) messages found
        (cache_key_parts-key key) g)

  distinct_values :
      (found : Object MessageSummary)
      → IsGathered folder cache found
      → AllPairs HasOtherId (map value_of found) × All (IsListed folder cache) (map value_of found)
  distinct_values [] g = (tt, tt)
  distinct_values ((key, message) ∷ found) ((d, ds), ((e, p), hs)) =
      let (pairs, all) = distinct_values found (ds, hs) in
      ((All-of_map (HasOtherId message) value_of found (apart found d hs), pairs), (p, all))
    where
      apart :
          (rest : Object MessageSummary)
          → All (λ x. x.0 ≢ key) rest
          → All (λ x. (x.0 ≡ (value_of x).id) × IsListed folder cache (value_of x)) rest
          → All (λ x. HasOtherId message (value_of x)) rest
      apart [] k h = tt
      apart (x ∷ rest) (k, ks) ((f, q), hs) = ((λ i. k (f ∙ sym i ∙ sym e)), apart rest ks hs)

-- A unified folder lists no identifier twice, and what it lists are messages of its accounts: for the
-- inbox, those whose account and folder are the key of a folder with the role of an inbox in one of
-- the accounts, and for the other two, those that are starred or unread.
pub collect_cached_unified_messages-IsListed :
    (u : Unicode) (n : Numbers) (folder : UnifiedFolderKind) (cache : UnifiedFolderCache)
    → let messages = collect_cached_unified_messages u n folder cache in
      AllPairs HasOtherId messages × All (IsListed folder cache) messages
unfolding collect_cached_unified_messages
collect_cached_unified_messages-IsListed u n folder cache =
    let (pairs, all) =
      distinct_values folder cache _
        (gather-IsGathered folder cache (sorted_collections u n cache.messages) [] (tt, tt)) in
    (
      AllPairs-sort HasOtherId (compare_by_date u n) (λ x y d e. d (sym e)) _ pairs,
      All-sort (compare_by_date u n) (IsListed folder cache) _ all,
    )

element :
    (messages : List MessageSummary) (i : ℕ)
    → i < length messages
    → (message : MessageSummary) × (get_elem? messages i ≡ some message)
      × (any (has_message_id message.id) messages ≡ true)
element [] i h = absurd (omega arith)
element (m ∷ messages) zero h = (m, refl, ground (arith, text_beq_refl m.id))
element (m ∷ messages) (suc i) h =
    let (message, found, here) = element messages i (omega arith) in (message, found, ground arith)

-- In a list with messages some message of the list is always selected: the earlier one where it is
-- still there.
pub select_stable_message_id_lem :
    (message : MessageSummary) (messages : List MessageSummary) (previous : Option Text) (index : ℕ)
    → (id : Text) × (select_stable_message_id (message ∷ messages) previous index ≡ some id)
      × (any (has_message_id id) (message ∷ messages) ≡ true)
      × (is_shown (message ∷ messages) previous ≡ true → previous ≡ some id)
unfolding select_stable_message_id
select_stable_message_id_lem message messages none index =
    let (m, found, here) =
      element (message ∷ messages) (min index (length (message ∷ messages) - 1)) (omega arith) in
    (m.id, rw found refl, here, (λ h. absurd (cc)))
select_stable_message_id_lem message messages (some id) index =
    elim (Bool-cases (is_shown (message ∷ messages) (some id))) [
      | inl shown ↦ (id, rw shown refl, ground arith, (λ h. refl))
      | inr gone ↦
          let (m, found, here) =
            element (message ∷ messages) (min index (length (message ∷ messages) - 1))
              (omega arith) in
          (m.id, rw (gone, found) refl, here, (λ h. absurd (cc)))
    ]
