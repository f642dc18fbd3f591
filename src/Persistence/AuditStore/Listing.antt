-- ===== src/Persistence/AuditStore/Listing.antt =====
-- What the audit archive (src/persistence/audit_store.py) lists, and what a purge takes from it.
use shelf_life_copilot.Prelude.{
  ℕ, ◌+◌, ◌≤◌, String, ◌≡◌, refl, sym, ◌∙◌, inl, inr, Bool, true, false, ◌&&◌, not, [], ◌∷◌,
  DateTime, ok, ◌>>◌, arith, Bool-cases, length,
}
use shelf_life_copilot.Prelude.Table.{All, delete_where, count_where}
use shelf_life_copilot.Prelude.Slices.{slice, drop, All-take, All-drop, length-take}
use shelf_life_copilot.Prelude.Sorting.{
  filter, filter-All, sort_by-All, sort_by-count, sort_by-Ascending, Ascending,
}
use shelf_life_copilot.Persistence.AuditStore.{
  SecurityAuditEvent, AuditEvents, validate_audit_query, in_period, newer, period, list_for_period,
  is_old, purge_before,
}

abbrev NotOlder : SecurityAuditEvent → SecurityAuditEvent → Type 0
NotOlder a b = b.occurred_at.instant ≤ a.occurred_at.instant

newer-le : (a b : SecurityAuditEvent) → newer a b ≡ true → NotOlder a b
newer-le a b h = ground arith

not-newer-le : (a b : SecurityAuditEvent) → newer a b ≡ false → NotOlder b a
not-newer-le a b h = ground arith

-- What a listing of a period is.
pub record IsListing (customer : String) (start end : DateTime) (limit offset : ℕ)
    (t items : AuditEvents) : Type 0 where
  pub fits : All (λ e. in_period customer start end e ≡ true) items
  pub at_most : length items ≤ limit
  pub page_of : items ≡ slice limit offset (period customer start end t)
  pub newest_first : Ascending NotOlder (period customer start end t)
  pub complete :
      (p : SecurityAuditEvent → Bool)
      → count_where p (period customer start end t)
        ≡ count_where (λ e. in_period customer start end e && p e) t

count_filter :
    (q p : SecurityAuditEvent → Bool) (t : AuditEvents)
    → count_where p (filter q t) ≡ count_where (λ e. q e && p e) t
unfolding count_where filter
count_filter q p [] = refl
count_filter q p (e ∷ t) = elim (Bool-cases (q e)) [
  | inl h ↦ rw h (omega (arith, count_filter q p t))
  | inr h ↦ rw h (omega (arith, count_filter q p t))
]

answered :
    (start end : DateTime) (limit : ℕ) (page : AuditEvents) {items : AuditEvents}
    → (validate_audit_query start end limit >> ok page) ≡ ok items
    → page ≡ items
unfolding validate_audit_query
answered start end limit page h = ground arith

page_length : (limit offset : ℕ) (xs : AuditEvents) → length (slice limit offset xs) ≤ limit
unfolding slice
page_length limit offset xs = omega (arith, length-take limit (drop offset xs))

module _ (customer : String) (start end : DateTime) (t : AuditEvents) where
  period_fits : All (λ e. in_period customer start end e ≡ true) (period customer start end t)
  unfolding period
  period_fits =
      sort_by-All (λ e. in_period customer start end e ≡ true) newer
        (filter (in_period customer start end) t) (filter-All (in_period customer start end) t)

  period_newest_first : Ascending NotOlder (period customer start end t)
  unfolding period
  period_newest_first =
      sort_by-Ascending newer NotOlder newer-le not-newer-le (λ a b c h k. omega arith)
        (filter (in_period customer start end) t)

  period_complete :
      (p : SecurityAuditEvent → Bool)
      → count_where p (period customer start end t)
        ≡ count_where (λ e. in_period customer start end e && p e) t
  unfolding period
  period_complete p =
      sort_by-count newer p (filter (in_period customer start end) t)
      ∙ count_filter (in_period customer start end) p t

  slice_fits :
      (limit offset : ℕ)
      → All
          (λ e. in_period customer start end e ≡ true)
          (slice limit offset (period customer start end t))
  unfolding slice
  slice_fits limit offset =
      All-take (λ e. in_period customer start end e ≡ true) limit _
        (All-drop (λ e. in_period customer start end e ≡ true) offset _ period_fits)

-- A listing that the store returns holds events of the customer within the period and no more than
-- the limit. It is the page at the offset of all events of the archive of that kind, each as often
-- as it is there, the newest first.
pub list_for_period-IsListing :
    (customer : String) (start end : DateTime) (limit offset : ℕ) (t : AuditEvents)
    {items : AuditEvents}
    → list_for_period customer start end limit offset t ≡ ok items
    → IsListing customer start end limit offset t items
unfolding list_for_period
list_for_period-IsListing customer start end limit offset t h =
    let same = answered start end limit (slice limit offset (period customer start end t)) h in
    record {
      fits = rw (← same) (slice_fits customer start end t limit offset);
      at_most = rw (← same) (page_length limit offset (period customer start end t));
      page_of = sym same;
      newest_first = period_newest_first customer start end t;
      complete = period_complete customer start end t;
    }

-- What a purge leaves.
pub record IsPurged (cutoff : DateTime) (t : AuditEvents) (n : ℕ) (rest : AuditEvents)
    : Type 0 where
  pub none_old : All (λ e. is_old cutoff e ≡ false) rest
  pub kept :
      (p : SecurityAuditEvent → Bool)
      → count_where p rest ≡ count_where (λ e. not (is_old cutoff e) && p e) t
  pub counted : n + length rest ≡ length t

module _ (q : SecurityAuditEvent → Bool) where
  none_left : (t : AuditEvents) → All (λ e. q e ≡ false) (delete_where q t)
  unfolding delete_where
  none_left [] = tt
  none_left (e ∷ t) = elim (Bool-cases (q e)) [
    | inl h ↦ rw h (none_left t)
    | inr h ↦ rw h (h, none_left t)
  ]

  others_kept :
      (p : SecurityAuditEvent → Bool) (t : AuditEvents)
      → count_where p (delete_where q t) ≡ count_where (λ e. not (q e) && p e) t
  unfolding delete_where count_where
  others_kept p [] = refl
  others_kept p (e ∷ t) = elim (Bool-cases (q e)) [
    | inl h ↦ rw h (omega (arith, others_kept p t))
    | inr h ↦ rw h (omega (arith, others_kept p t))
  ]

  deleted_counted : (t : AuditEvents) → count_where q t + length (delete_where q t) ≡ length t
  unfolding delete_where count_where
  deleted_counted [] = omega arith
  deleted_counted (e ∷ t) = elim (Bool-cases (q e)) [
    | inl h ↦ rw h (omega (arith, deleted_counted t))
    | inr h ↦ rw h (omega (arith, deleted_counted t))
  ]

-- A purge deletes the events before the cutoff and no other: none that is left is before it, every
-- other event is there as often as before, and the number returned is that of the deleted ones.
-- The cutoff is aware.
pub purge_before-IsPurged :
    (cutoff : DateTime) (t : AuditEvents)
    → cutoff.tz ≡ true
    → (n : ℕ) × ((purge_before cutoff t).0 ≡ ok n) × IsPurged cutoff t n (purge_before cutoff t).1
unfolding purge_before
purge_before-IsPurged cutoff t h = rw h (
  count_where (is_old cutoff) t,
  refl,
  record {
    none_old = none_left (is_old cutoff) t;
    kept = λ p. others_kept (is_old cutoff) p t;
    counted = deleted_counted (is_old cutoff) t;
  },
)
