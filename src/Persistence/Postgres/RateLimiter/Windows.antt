-- ===== src/Persistence/Postgres/RateLimiter/Windows.antt =====
-- What `PostgresRateLimiter` (src/persistence/postgres.py) admits in a window.
use shelf_life_copilot.Prelude.{
  ℕ, suc, ◌+◌, ◌/◌, ◌≤◌, ◌<◌, min, String, ◌≡◌, refl, sym, ap, inl, inr, Bool, true, false, ◌&&◌,
  List, [], ◌∷◌, arith, Bool-cases, ltb, nat_eq, nat_eq_iff, ◌==◌, eq_iff, ok, if◌then◌else◌,
}
use shelf_life_copilot.Prelude.Table.{find}
use shelf_life_copilot.Persistence.Postgres.RateLimiter.{
  RateWindows, RateLimiter, admit, rate_limiter, allow, allow_current, window_epoch, current_window,
}
use native.Mathlib.Nat.{div-add-mod', mod-lt, mul-le-mul_right, suc-mul}
use shelf_life_copilot.Persistence.Postgres.RateLimiter.Admissions.{used, admit_self, admit_other}

window_same : (window now : ℕ) → window_epoch window now ≡ current_window window now
window_same window now = omega (arith, div-add-mod' now window)

-- The clock of the database gives the answer and the rows that the caller's clock gives.
pub allow_current_same :
    (l : RateLimiter) (key : String) (now : ℕ) (t : RateWindows)
    → allow_current l key now t ≡ allow l key now t
unfolding allow allow_current
allow_current_same l key now t =
    ap (λ w. admit l.limit key w t) (sym (window_same l.window_seconds now))

window_monotone : (w a b : ℕ) → 0 < w → a ≤ b → current_window w a ≤ current_window w b
window_monotone w a b pos le = elim (Bool-cases (ltb (b / w) (a / w))) [
  | inr below ↦ mul-le-mul_right w (ground arith)
  | inl above ↦ absurd (
      omega (
        arith,
        div-add-mod' a w,
        div-add-mod' b w,
        mod-lt b pos,
        suc-mul (b / w) w,
        mul-le-mul_right w (next_le above),
      ))
]
  where
    next_le : ltb (b / w) (a / w) ≡ true → suc (b / w) ≤ a / w
    next_le h = ground arith

-- a request: its key and its time
abbrev pub Request : Type 0
Request = String × ℕ

-- The times of the requests do not go back.
abbrev pub Ordered : ℕ → List Request → Type 0
Ordered t [] = Unit
Ordered t (c ∷ cs) = (t ≤ c.1) × Ordered c.1 cs

abbrev falls_in : RateLimiter → String → ℕ → Request → Bool
falls_in l key started c = c.0 == key && nat_eq (window_epoch l.window_seconds c.1) started

-- the requests of a key in a window
unfoldable pub requests : RateLimiter → String → ℕ → List Request → ℕ
requests l key started [] = 0
requests l key started (c ∷ cs) =
    (if falls_in l key started c then 1 else 0) + requests l key started cs

-- those of them that the limiter lets through
unfoldable pub admitted : RateLimiter → String → ℕ → List Request → RateWindows → ℕ
admitted l key started [] t = 0
admitted l key started (c ∷ cs) t =
    let (passed, t') = allow l c.0 c.1 t in
    (if falls_in l key started c && passed then 1 else 0) + admitted l key started cs t'

module _ (l : RateLimiter) (key : String) (started : ℕ) (limit_pos : 0 < l.limit)
    (window_pos : 0 < l.window_seconds) where
  later_window :
      (a b : ℕ) → a ≤ b → window_epoch l.window_seconds a ≤ window_epoch l.window_seconds b
  later_window a b le = omega (
    arith,
    window_same l.window_seconds a,
    window_same l.window_seconds b,
    window_monotone l.window_seconds a b window_pos le,
  )

  not_in :
      (c : Request) → started < window_epoch l.window_seconds c.1 → falls_in l key started c ≡ false
  not_in c h = ground arith

  over :
      (t : ℕ) (cs : List Request) (rows : RateWindows)
      → Ordered t cs
      → started < window_epoch l.window_seconds t
      → (requests l key started cs ≡ 0) × (admitted l key started cs rows ≡ 0)
  unfolding requests admitted
  over t [] rows o h = (refl, refl)
  over t (c ∷ cs) rows o h =
      let past : started < window_epoch l.window_seconds c.1 =
        omega (arith, later_window t c.1 o.0) in
      let (none_left, none_passed) = over c.1 cs (allow l c.0 c.1 rows).1 o.1 past in
      rw (not_in c past) (omega (arith, none_left), omega (arith, none_passed))

  own_step :
      (c : Request) (rows : RateWindows)
      → falls_in l key started c ≡ true
      → ((allow l c.0 c.1 rows).0 ≡ ltb (used key started rows) l.limit)
        × (used key started (allow l c.0 c.1 rows).1 ≡ (
            if ltb (used key started rows) l.limit
            then used key started rows + 1
            else used key started rows))
  unfolding allow
  own_step c rows h = rw (own_key, own_window) (admit_self l.limit key started rows limit_pos)
    where
      own_key : c.0 ≡ key
      own_key = ground (arith, eq_iff c.0 key)

      own_window : window_epoch l.window_seconds c.1 ≡ started
      own_window = ground (arith, nat_eq_iff (window_epoch l.window_seconds c.1) started)

  other_step :
      (c : Request) (rows : RateWindows)
      → window_epoch l.window_seconds c.1 ≤ started
      → falls_in l key started c ≡ false
      → used key started (allow l c.0 c.1 rows).1 ≡ used key started rows
  unfolding allow
  other_step c rows le h =
      admit_other l.limit key started c.0 (window_epoch l.window_seconds c.1) rows le h

  admitted_from :
      (t : ℕ) (cs : List Request) (rows : RateWindows)
      → Ordered t cs
      → used key started rows ≤ l.limit
      → admitted l key started cs rows + used key started rows
        ≡ min l.limit (requests l key started cs + used key started rows)
  unfolding requests admitted
  admitted_from t [] rows o h = omega arith
  admitted_from t (c ∷ cs) rows o h =
      let rows' = (allow l c.0 c.1 rows).1 in
      elim (Bool-cases (falls_in l key started c)) [
        | inl own ↦
            (let (passed, count) = own_step c rows own in
              elim (Bool-cases (ltb (used key started rows) l.limit)) [
                | inl few ↦
                    (let grown : used key started rows' ≡ used key started rows + 1 =
                        rw few at count in
                      rw (own, passed, few)
                        (omega (arith, grown, admitted_from c.1 cs rows' o.1 (ground arith))))
                | inr full ↦
                    (let kept : used key started rows' ≡ used key started rows = rw full at count in
                      let most : l.limit ≤ used key started rows = ground arith in
                      rw (own, passed, full)
                        (omega (arith, kept, admitted_from c.1 cs rows' o.1 (omega arith))))
              ])
        | inr other ↦ elim (Bool-cases (ltb started (window_epoch l.window_seconds c.1))) [
          | inl past ↦
              (let (none_left, none_passed) = over c.1 cs rows' o.1 (ground arith) in
                rw other (omega (arith, none_left, none_passed)))
          | inr reached ↦
              (let kept = other_step c rows (ground arith) other in
                rw other
                  (omega (arith, kept, admitted_from c.1 cs rows' o.1 (omega (arith, kept)))))
        ]
      ]

pub rate_limiter-positive :
    (limit window : ℕ) {l : RateLimiter}
    → rate_limiter limit window ≡ ok l
    → (0 < limit) × (0 < window) × (l ≡ record { limit = limit; window_seconds = window })
unfolding rate_limiter
rate_limiter-positive limit window h = (ground arith, ground arith, ground arith)

-- Of the requests of a key in a window the limiter lets through the first ones up to its limit, and
-- no other: as many as there are, and at most `limit`. The configuration has passed the checks of
-- the constructor, the table is empty at the start and the times do not go back.
pub admitted-min :
    (limit window : ℕ) (l : RateLimiter) (key : String) (started t : ℕ) (cs : List Request)
    → rate_limiter limit window ≡ ok l
    → Ordered t cs
    → admitted l key started cs [] ≡ min limit (requests l key started cs)
admitted-min limit window l key started t cs h o =
    let (some_limit, some_window, same) = rate_limiter-positive limit window h in
    let from =
      admitted_from (record { limit = limit; window_seconds = window }) key started some_limit
        some_window t cs [] o (unfold used find in omega arith) in
    let unused : used key started [] ≡ 0 = unfold used find in refl in
    rw same (omega (arith, from, unused))
