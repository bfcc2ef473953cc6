-- ===== src/Queue/Rejected.antt =====
-- Messages that come back to the drafts: rejected ones and cancelled ones (`#deliverOutboxItem` and
-- `cancelOutbox` of src/main/app-service.ts).
use material_email.Prelude.{
  ◌≡◌, ◌≢◌, refl, sym, subst, ◌∙◌, Bool, true, false, Option, none, some, List, [], ◌∷◌, ◌++◌,
  arith, find?, any, All, Bool-cases, Option-cases, inl, inr,
}
use material_email.Prelude.Text.{Text, text_beq_refl, is_empty}
use material_email.Mail.{ComposeDraft}
use material_email.Sending.{SendResult}
use material_email.Queue.Model.{OutboxItem, MailState}
use material_email.Queue.Heads.{update_first, nonempty}
use material_email.Queue.Delivery.{
  text_same, same_lists, same_string_list, same_draft, same_draft_snapshot, has_draft_id,
  find_draft, keep_rejected, retained_id, put_draft, is_kept,
}

text_same_refl : (o : Option Text) → text_same o o ≡ true
text_same_refl none = refl
text_same_refl (some s) = text_beq_refl s

same_string_list_refl : (l : List Text) → same_string_list l l ≡ true
same_string_list_refl [] = refl
same_string_list_refl (s ∷ l) = rw (text_beq_refl s, same_string_list_refl l) refl

same_lists_refl : (o : Option (List Text)) → same_lists o o ≡ true
same_lists_refl none = refl
same_lists_refl (some l) = same_string_list_refl l

pub same_draft_refl : (d : ComposeDraft) → same_draft d d ≡ true
same_draft_refl d =
    rw
      (
        text_same_refl d.id,
        text_beq_refl d.account_id,
        same_string_list_refl d.to,
        same_string_list_refl d.cc,
        same_string_list_refl d.bcc,
        text_beq_refl d.subject,
        text_beq_refl d.text,
        text_same_refl d.in_reply_to,
        same_lists_refl d.references,
        same_string_list_refl d.attachments,
      )
      refl

-- Every draft of the one list has one with the same contents in the other.
abbrev pub AreKept : List ComposeDraft → List ComposeDraft → Type 0
AreKept before after = All (λ (d : ComposeDraft). any (same_draft d) after ≡ true) before

kept_behind :
    (x : ComposeDraft) (before after : List ComposeDraft)
    → AreKept before after
    → AreKept before (x ∷ after)
kept_behind x [] after h = tt
kept_behind x (d ∷ before) after (h, hs) = (rw h (ground arith), kept_behind x before after hs)

kept_before :
    (x : ComposeDraft) (before after : List ComposeDraft)
    → AreKept before after
    → AreKept before (after ++ x ∷ [])
kept_before x [] after h = tt
kept_before x (d ∷ before) after (h, hs) = (appended after h, kept_before x before after hs)
  where
    appended :
        (l : List ComposeDraft)
        → any (same_draft d) l ≡ true
        → any (same_draft d) (l ++ x ∷ []) ≡ true
    appended [] e = absurd (cc)
    appended (y ∷ l) e = elim (Bool-cases (same_draft d y)) [
      | inl same ↦ rw same refl
      | inr other ↦ rw other (appended l (rw other at e))
    ]

kept_self : (l : List ComposeDraft) → AreKept l l
kept_self [] = tt
kept_self (d ∷ l) = (rw (same_draft_refl d) refl, kept_behind d l l (kept_self l))

kept-update_first :
    (p : ComposeDraft → Bool) (new c : ComposeDraft) (l : List ComposeDraft)
    → find? p l ≡ some c
    → same_draft c new ≡ true
    → AreKept l (update_first p (λ d. new) l)
unfolding update_first
kept-update_first p new c [] h e = absurd (cc)
kept-update_first p new c (d ∷ l) h e = elim (Bool-cases (p d)) [
  | inl first ↦
      let same : c ≡ d = ground arith in
      let as_new : same_draft d new ≡ true = subst (λ x. same_draft x new ≡ true) same e in
      subst (AreKept (d ∷ l)) (sym (put_first first))
        (rw as_new refl, kept_behind new l l (kept_self l))
  | inr later ↦ subst (AreKept (d ∷ l)) (sym (put_later later)) (
    rw (same_draft_refl d) refl,
    kept_behind d l (update_first p (λ x. new) l) (kept-update_first p new c l (rw later at h) e),
  )
]
  where
    put_first : p d ≡ true → update_first p (λ x. new) (d ∷ l) ≡ new ∷ l
    put_first first = rw first refl

    put_later : p d ≡ false → update_first p (λ x. new) (d ∷ l) ≡ d ∷ update_first p (λ x. new) l
    put_later later = rw later refl

any_of_find :
    (p : ComposeDraft → Bool) (l : List ComposeDraft) (o : Option ComposeDraft)
    → find? p l ≡ o
    → any p l ≡ (elim o [ none ↦ false | some c ↦ true ])
any_of_find p [] none h = refl
any_of_find p [] (some c) h = absurd (cc)
any_of_find p (x ∷ l) o h = elim (Bool-cases (p x)) [
  | inl is_p ↦
      rw is_p (subst (λ r. true ≡ (elim r [ none ↦ false | some c ↦ true ])) (rw is_p at h) refl)
  | inr not_p ↦ rw not_p (any_of_find p l o (rw not_p at h))
]

put_draft_keeps :
    (id : Text) (draft : ComposeDraft) (drafts : List ComposeDraft)
    → ((c : ComposeDraft) → find? (has_draft_id id) drafts ≡ some c → same_draft c draft ≡ true)
    → AreKept drafts (put_draft id draft drafts)
unfolding put_draft
put_draft_keeps id draft drafts h = elim (Option-cases (find? (has_draft_id id) drafts)) [
  | inl missing ↦
      subst (AreKept drafts) (sym (appended (any_of_find (has_draft_id id) drafts none missing)))
        (kept_before draft drafts drafts (kept_self drafts))
  | inr (c, there) ↦
      subst (AreKept drafts) (sym (replaced (any_of_find (has_draft_id id) drafts (some c) there)))
        (kept-update_first (has_draft_id id) draft c drafts there (h c there))
]
  where
    appended :
        any (has_draft_id id) drafts ≡ false → put_draft id draft drafts ≡ drafts ++ draft ∷ []
    appended e = rw e refl

    replaced :
        any (has_draft_id id) drafts ≡ true
        → put_draft id draft drafts ≡ update_first (has_draft_id id) (λ d. draft) drafts
    replaced e = rw e refl

none_of_any :
    (p : ComposeDraft → Bool) (c : ComposeDraft) (l : List ComposeDraft)
    → any p l ≡ false
    → find? p l ≢ some c
none_of_any p c l h e = let a = any_of_find p l (some c) e in ground arith

-- The draft under an identifier has the contents of a message that is kept under it.
abbrev Agrees : List ComposeDraft → ComposeDraft → Text → Type 0
Agrees drafts queued id =
    (c : ComposeDraft)
    → find? (has_draft_id id) drafts ≡ some c
    → same_draft c (record queued { id = some id }) ≡ true

nonempty-some : (o : Option Text) (id : Text) → nonempty o ≡ some id → o ≡ some id
nonempty-some none id h = absurd (cc)
nonempty-some (some s) id h = elim (Bool-cases (is_empty s)) [
  | inl blank ↦ let e = rw blank at h in absurd (cc)
  | inr filled ↦ rw filled at h
]

retained_id-Agrees :
    (state : MailState) (queued : ComposeDraft) (fresh : Text)
    → any (has_draft_id fresh) state.drafts ≡ false
    → Agrees state.drafts queued (retained_id state queued fresh)
unfolding retained_id same_draft_snapshot
retained_id-Agrees state queued fresh unused = elim (Option-cases (nonempty queued.id)) [
  | inl unsaved ↦ subst (Agrees state.drafts queued) (sym (rw unsaved refl)) with_fresh
  | inr (id, saved) ↦ elim (Option-cases (find? (has_draft_id id) state.drafts)) [
    | inl missing ↦
        subst (Agrees state.drafts queued) (sym (own_id id saved (rw (saved, missing) refl)))
          (λ c there. let e = sym missing ∙ there in absurd (cc))
    | inr (current, stored) ↦ elim (Bool-cases (same_draft current queued)) [
      | inl same ↦
          subst (Agrees state.drafts queued) (sym (own_id id saved (rw (saved, stored, same) refl)))
            (λ c there.
              let is_current : current ≡ c = some_injective (sym stored ∙ there) in
              subst (λ x. same_draft x (record queued { id = some id }) ≡ true) is_current
                (subst (λ o. same_draft current (record queued { id = o }) ≡ true)
                  (nonempty-some queued.id id saved) same))
      | inr changed ↦
          subst (Agrees state.drafts queued)
            (sym (new_id id saved (rw (saved, stored, changed) refl))) with_fresh
    ]
  ]
]
  where
    with_fresh : Agrees state.drafts queued fresh
    with_fresh c there = absurd (none_of_any (has_draft_id fresh) c state.drafts unused there)

    some_injective : {x y : ComposeDraft} → some x ≡ some y → x ≡ y
    some_injective e = cc

    own_id :
        (id : Text)
        → nonempty queued.id ≡ some id
        → is_kept (find_draft (nonempty queued.id) state.drafts) queued ≡ true
        → retained_id state queued fresh ≡ id
    own_id id saved kept = rw kept (rw saved refl)

    new_id :
        (id : Text)
        → nonempty queued.id ≡ some id
        → is_kept (find_draft (nonempty queued.id) state.drafts) queued ≡ false
        → retained_id state queued fresh ≡ fresh
    new_id id saved changed = rw changed (rw saved refl)

-- If the new identifier is none of a stored draft's, then keeping a rejected message as a draft loses
-- no stored draft: each has one with the same contents afterwards, its sending identity aside.
pub keep_rejected-AreKept :
    (state : MailState) (queued : OutboxItem) (answer : SendResult) (fresh : Text)
    → any (has_draft_id fresh) state.drafts ≡ false
    → AreKept state.drafts (keep_rejected state queued answer fresh).drafts
unfolding keep_rejected
keep_rejected-AreKept state queued answer fresh unused =
    put_draft_keeps (retained_id state queued.draft fresh)
      (record queued.draft { id = some (retained_id state queued.draft fresh) }) state.drafts
      (retained_id-Agrees state queued.draft fresh unused)
