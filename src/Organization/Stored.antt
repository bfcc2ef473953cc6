-- ===== src/Organization/Stored.antt =====
-- The lists that `removeFilter` and `reorderFilters` of src/main/mail-organization.ts store.
use mathlib.Core.List.Perm
use material_email.Prelude.{
  ℕ, suc, ◌≡◌, ◌↔◌, false, List, [], ◌∷◌, map, arith, any, Perm, sort, sort-IsSorted,
  sort_of_IsSorted,
}
use material_email.Prelude.Text.{Text}
use material_email.Runtime.{Unicode}
use material_email.Filters.{MessageFilter, compare_filters, err, filter_not_found}
use material_email.Filters.Firing.{compare_filters-IsComparator}
use material_email.Organization.State.{PersistedState}
use material_email.Organization.FilterList.{has_filter_id, list_filters, remove_filter}

-- The ordinals count up from a number.
abbrev pub CountsFrom : ℕ → List MessageFilter → Type 0
CountsFrom k [] = Unit
CountsFrom k (f ∷ filters) = (f.ordinal ≡ k) × CountsFrom (suc k) filters

abbrev pub ids : List MessageFilter → List Text
ids = map (λ f. f.id)

module _ (u : Unicode) where
  sort_idem :
      (filters : List MessageFilter)
      → sort (compare_filters u) (sort (compare_filters u) filters)
        ≡ sort (compare_filters u) filters
  sort_idem filters =
      sort_of_IsSorted (compare_filters u) _
        (sort-IsSorted (compare_filters u) (compare_filters-IsComparator u) filters)

  -- A removal is refused exactly where no filter has the identifier.
  pub remove_filter_refused :
      (draft : PersistedState) (id : Text)
      → (remove_filter u draft id ≡ err filter_not_found)
        ↔ (any (has_filter_id id) (list_filters u draft) ≡ false)
  unfolding remove_filter
  remove_filter_refused draft id = ground arith
