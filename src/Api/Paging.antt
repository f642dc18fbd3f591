-- ===== src/Api/Paging.antt =====
-- The paging of the list endpoints (src/api/router.py): a page, and the cursor of the next one.
use shelf_life_copilot.Prelude.{
  ℕ, zero, suc, ◌+◌, ◌-◌, ◌<◌, ◌≡◌, ◌≢◌, refl, sym, ◌∙◌, ap, Option, none, some, List, [], ◌++◌,
  nat_eq, nat_eq_iff, if◌then◌else◌, length, arith, Bool-cases, inl, inr,
}
use mathlib.Core.List.{append-nil}
use shelf_life_copilot.Prelude.Slices.{
  drop, slice, take-drop, length-take, length-drop, drop-drop, take-all,
}

-- `_page`: the cursor of the next page
unfoldable pub page {ℓ} : {A : Type ℓ} → List A → ℕ → ℕ → Option ℕ
page items cursor limit = if nat_eq (length items) limit then some (cursor + limit) else none

-- the page of a listing, from a slice of all items: `all_items[cursor : cursor + limit]` of `list_batches`,
-- and LIMIT and OFFSET in the stores
unfoldable pub listing {ℓ} : {A : Type ℓ} → List A → ℕ → ℕ → List A × Option ℕ
unfolding page slice
listing all_items cursor limit =
    let items = slice limit cursor all_items in (items, page items cursor limit)

-- A client that follows the cursors, with fuel for the number of pages.
unfoldable pub follow {ℓ} : {A : Type ℓ} → ℕ → List A → ℕ → ℕ → List A
unfolding listing
follow zero all_items cursor limit = []
follow (suc fuel) all_items cursor limit =
    let (items, next) = listing all_items cursor limit in
    items ++ elim next [ none ↦ [] | some c ↦ follow fuel all_items c limit ]

module _ {ℓ} {A : Type ℓ} (all_items : List A) where
  short_page :
      (cursor limit : ℕ)
      → length (slice limit cursor all_items) ≢ limit
      → slice limit cursor all_items ≡ drop cursor all_items
  unfolding slice
  short_page cursor limit h =
      take-all limit (drop cursor all_items)
        (omega (arith, length-take limit (drop cursor all_items), h))

  enough :
      (cursor limit fuel : ℕ)
      → 0 < limit
      → length all_items - cursor < suc fuel
      → length (slice limit cursor all_items) ≡ limit
      → length all_items - (cursor + limit) < fuel
  unfolding slice
  enough cursor limit fuel pos h whole =
      omega (arith, length-take limit (drop cursor all_items), length-drop cursor all_items, whole)

  follow_from :
      (fuel cursor limit : ℕ)
      → 0 < limit
      → length all_items - cursor < fuel
      → follow fuel all_items cursor limit ≡ drop cursor all_items
  unfolding follow
  follow_from zero cursor limit pos h = absurd (omega arith)
  follow_from (suc fuel) cursor limit pos h =
      elim (Bool-cases (nat_eq (length (slice limit cursor all_items)) limit)) [
        | inl full ↦
            (let whole : length (slice limit cursor all_items) ≡ limit =
                (nat_eq_iff (length (slice limit cursor all_items)) limit).0 full in
              rw full (
                ap (λ ys. slice limit cursor all_items ++ ys)
                  (follow_from fuel (cursor + limit) limit pos
                      (enough cursor limit fuel pos h whole)
                    ∙ sym (drop-drop cursor limit all_items))
                ∙ unfold slice in take-drop limit (drop cursor all_items)))
        | inr short ↦
            (let partial : length (slice limit cursor all_items) ≢ limit =
                λ e. cc ((nat_eq_iff (length (slice limit cursor all_items)) limit).1 e, short) in
              rw short
                (append-nil (slice limit cursor all_items) ∙ short_page cursor limit partial))
      ]

-- A client that follows the cursors from the start receives every item of the listing once and in
-- order. Its fuel is one page more than there are items, and the limit is at least 1, which the
-- endpoints demand.
pub follow_all {ℓ} :
    {A : Type ℓ} (all_items : List A) (limit : ℕ)
    → 0 < limit
    → follow (suc (length all_items)) all_items 0 limit ≡ all_items
follow_all all_items limit pos =
    follow_from all_items (suc (length all_items)) 0 limit pos (omega arith) ∙ unfold drop in refl
