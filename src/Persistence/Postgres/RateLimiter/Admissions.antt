-- ===== src/Persistence/Postgres/RateLimiter/Admissions.antt =====
-- What one call of `PostgresRateLimiter.allow` (src/persistence/postgres.py) counts.
use shelf_life_copilot.Prelude.{
  ℕ, ◌+◌, ◌≤◌, ◌<◌, String, ◌≡◌, refl, ◌∙◌, ap, inl, inr, true, false, ◌&&◌, Option, none, some, [],
  ◌∷◌, arith, Bool-cases, ltb, nat_eq, nat_eq_iff, ◌==◌, eq_iff, eq_refl, if◌then◌else◌,
}
use shelf_life_copilot.Prelude.Table.{
  find, delete_where, find-update_where, find-append_none, find_sound,
}
use shelf_life_copilot.Prelude.Keys.{find-delete_other, find-update_other, find-append_other}
use shelf_life_copilot.Persistence.Postgres.RateLimiter.{
  RateWindow, RateWindows, in_window, is_expired, first_request, count_request, insert_or_count,
  admit,
}

-- the requests of a key that its window has counted
abbrev pub counted : Option RateWindow → ℕ
counted none = 0
counted (some r) = r.request_count

unfoldable pub used : String → ℕ → RateWindows → ℕ
used key started t = counted (find (in_window key started) t)

module _ (limit : ℕ) (key : String) (started : ℕ) where
  same_window : (a : RateWindow) → in_window key started (count_request a) ≡ in_window key started a
  same_window a = refl

  count_self :
      (t : RateWindows) (m : Option RateWindow)
      → 0 < limit
      → find (in_window key started) t ≡ m
      → ((insert_or_count limit key started t m).0 ≡ ltb (counted m) limit)
        × (counted (find (in_window key started) (insert_or_count limit key started t m).1)
            ≡ (if ltb (counted m) limit then counted m + 1 else counted m))
  unfolding find
  count_self t none pos e = (
    ground arith,
    rw (find-append_none (in_window key started) t (first_request key started ∷ []) e)
        (rw (eq_refl key) (ground arith)),
  )
  count_self t (some r) pos e = elim (Bool-cases (ltb r.request_count limit)) [
    | inl few ↦ rw few (
      refl,
      rw
          (
            find-update_where (in_window key started) (in_window key started) count_request
                same_window t,
            e,
          )
          (rw (find_sound (in_window key started) t e) refl),
    )
    | inr full ↦ rw full (refl, rw e refl)
  ]

  not_expired :
      (st : ℕ)
      → st ≤ started
      → (a : RateWindow) → in_window key started a ≡ true
      → is_expired st a ≡ false
  not_expired st le a h = ground (arith, nat_eq_iff a.window_started_at started)

  -- a request is admitted if its window has counted fewer than the limit, and is counted then
  pub admit_self :
      (t : RateWindows)
      → 0 < limit
      → ((admit limit key started t).0 ≡ ltb (used key started t) limit)
        × (used key started (admit limit key started t).1 ≡ (
            if ltb (used key started t) limit then used key started t + 1 else used key started t))
  unfolding admit used
  admit_self t pos =
      let kept =
        find-delete_other (in_window key started) (is_expired started)
          (not_expired started (omega arith)) t in
      rw (← kept) (
        count_self (delete_where (is_expired started) t)
          (find (in_window key started) (delete_where (is_expired started) t)) pos refl)

  apart_window :
      (k : String) (st : ℕ)
      → k == key && nat_eq st started ≡ false
      → (a : RateWindow) → in_window key started a ≡ true
      → in_window k st a ≡ false
  apart_window k st ne a h = ground (
    arith,
    eq_iff a.rate_key key,
    eq_iff a.rate_key k,
    eq_iff k key,
    nat_eq_iff a.window_started_at started,
  )

  count_other :
      (k : String) (st : ℕ) (t : RateWindows) (m : Option RateWindow)
      → k == key && nat_eq st started ≡ false
      → find (in_window key started) (insert_or_count limit k st t m).1
        ≡ find (in_window key started) t
  count_other k st t none ne = find-append_other (in_window key started) t (first_request k st) ne
  count_other k st t (some r) ne = elim (Bool-cases (ltb r.request_count limit)) [
    | inl few ↦ rw few (
        find-update_other (in_window key started) (in_window k st) count_request
          (apart_window k st ne) same_window t)
    | inr full ↦ rw full refl
  ]

  pub admit_other :
      (k : String) (st : ℕ) (t : RateWindows)
      → st ≤ started
      → k == key && nat_eq st started ≡ false
      → used key started (admit limit k st t).1 ≡ used key started t
  unfolding admit used
  admit_other k st t le ne = ap counted (
      count_other k st (delete_where (is_expired st) t)
        (find (in_window k st) (delete_where (is_expired st) t)) ne
      ∙ find-delete_other (in_window key started) (is_expired st) (not_expired st le) t)
