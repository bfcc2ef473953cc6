-- ===== src/Identities/Invariant.antt =====
-- The lists of identities that buildIdentity, removeIdentity and the store make
-- (src/shared/identities.ts, src/main/identity-store.ts).
use material_email.Prelude.{
  ◌≡◌, ◌≢◌, refl, sym, ◌∙◌, true, false, not, ◌||◌, some, List, [], ◌∷◌, ◌++◌, arith, map, filter,
  find?, any, ltb, length, All, All-both, All-filter, AllPairs-map, filter_sound, if◌then◌else◌,
  All-sort, length-sort, sort,
}
use material_email.Prelude.Text.{Text, text_beq, text_beq_iff}
use material_email.Runtime.{Unicode}
use material_email.Identities.Normal.{MailIdentity}
use material_email.Identities.Choice.{
  has_identity_id, of_account, promoted, demoted, head?, no_identities, sort_identities,
  compare_identities, promote_first,
}
use material_email.Identities.Defaults.{
  HasDistinctIdentities, HasOneDefault, defaults, any-promoted, found_counts, found_self,
}

-- Identities with identifiers of their own, and one default for every account that has any.
pub record IsIdentityList (identities : List MailIdentity) : Type 0 where
  pub distinct : HasDistinctIdentities identities
  pub one_default : HasOneDefault identities

-- The head of sorted identities is one of them.
pub head?-sort :
    {P : MailIdentity → Type 0} (u : Unicode) (xs : List MailIdentity)
    → All P xs
    → no_identities xs ≡ false
    → (first : MailIdentity) × (head? (sort_identities u xs) ≡ some first) × P first
unfolding sort_identities
head?-sort {P} u xs h nonempty =
    pick (sort (compare_identities u) xs) (length-sort (compare_identities u) xs)
      (All-sort (compare_identities u) P xs h)
  where
    pick :
        (ys : List MailIdentity)
        → length ys ≡ length xs
        → All P ys
        → (first : MailIdentity) × (head? ys ≡ some first) × P first
    pick [] e hs = absurd (ground (arith, nonempty))
    pick (y ∷ ys) e (k, ks) = (y, refl, k)

pub any_default :
    (a : Text) (xs : List MailIdentity)
    → any (λ (x : MailIdentity). x.is_default) (filter (of_account a) xs) ≡ ltb 0 (defaults a xs)
any_default a [] = ground arith
any_default a (x ∷ xs) = ground (arith, any_default a xs)

pub no_identities-filter :
    (a : Text) (xs : List MailIdentity)
    → no_identities (filter (of_account a) xs) ≡ not (any (of_account a) xs)
no_identities-filter a [] = refl
no_identities-filter a (x ∷ xs) = ground (arith, no_identities-filter a xs)

pub defaults_le_any :
    (a : Text) (xs : List MailIdentity) → any (of_account a) xs ≡ false → defaults a xs ≡ 0
defaults_le_any a [] h = refl
defaults_le_any a (x ∷ xs) h = ground (arith, defaults_le_any a xs)

pub any-concat :
    (a : Text) (xs : List MailIdentity) (y : MailIdentity)
    → any (of_account a) (xs ++ y ∷ []) ≡ (any (of_account a) xs || of_account a y)
any-concat a [] y = ground arith
any-concat a (x ∷ xs) y = ground (arith, any-concat a xs y)

pub promoted_id : (id : Text) (x : MailIdentity) → (promoted id x).id ≡ x.id
promoted_id id x = ground arith

pub demoted_id : (a : Text) (x : MailIdentity) → (demoted a x).id ≡ x.id
demoted_id a x = ground arith

pub map-HasDistinct :
    (f : MailIdentity → MailIdentity)
    → ((x : MailIdentity) → (f x).id ≡ x.id)
    → (xs : List MailIdentity) → HasDistinctIdentities xs
    → HasDistinctIdentities (map f xs)
map-HasDistinct f same xs d =
    AllPairs-map (λ (x : MailIdentity) y. y.id ≢ x.id) f
      (λ x y ne e. ne (sym (same y) ∙ e ∙ same x)) xs d

-- An account without a default gets one: the first of its identities.
pub promote_first_lem :
    (u : Unicode) (a : Text) (xs : List MailIdentity)
    → HasDistinctIdentities xs
    → defaults a xs ≡ 0
    → any (of_account a) xs ≡ true
    → HasDistinctIdentities
        (promote_first xs (head? (sort_identities u (filter (of_account a) xs))))
      × ((b : Text)
          → (defaults b (promote_first xs (head? (sort_identities u (filter (of_account a) xs))))
              ≡ (if text_beq a b then 1 else defaults b xs))
            × (any
                  (of_account b)
                  (promote_first xs (head? (sort_identities u (filter (of_account a) xs))))
                ≡ any (of_account b) xs))
promote_first_lem u a xs d e has =
    let (first, is_first, (found, mine)) =
      head?-sort u (filter (of_account a) xs)
        (All-both _ _ (filter (of_account a) xs)
          (All-filter (λ x. find? (has_identity_id x.id) xs ≡ some x) (of_account a) xs
            (found_self xs d))
          (filter_sound (of_account a) xs))
        (no_identities-filter a xs ∙ rw has refl) in
    rw is_first (
      map-HasDistinct (promoted first.id) (promoted_id first.id) xs d,
      λ b. (
        let (p, q, r, s) = found_counts b first.id first xs d found in
            let (p', q', r', s') = found_counts a first.id first xs d found in
            ground (
              arith,
              p,
              r,
              p',
              e,
              mine,
              text_beq_iff first.account_id a,
              text_beq_iff first.account_id b,
              text_beq_iff a b,
            ),
        any-promoted b first.id xs,
      ),
    )
