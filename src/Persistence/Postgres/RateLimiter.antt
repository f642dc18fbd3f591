-- ===== src/Persistence/Postgres/RateLimiter.antt =====
-- `PostgresRateLimiter` (src/persistence/postgres.py) on the table `rate_limit_windows`. Times are whole
-- numbers of a unit in which the window is a whole number too.
pub mod Admissions
pub mod Windows
use shelf_life_copilot.Prelude.{
  ℕ, zero, suc, ◌+◌, ◌-◌, ◌*◌, ◌/◌, ◌%◌, String, Bool, true, false, ◌&&◌, Option, none, some, List,
  [], ◌∷◌, ◌++◌, Result, ok, err, guard, ◌>>◌, value_error, ltb, nat_eq, ◌==◌, if◌then◌else◌,
}
use shelf_life_copilot.Prelude.Table.{find, update_where, delete_where}

pub record RateWindow : Type 0 where
  pub rate_key : String
  pub window_started_at : ℕ
  pub request_count : ℕ

abbrev pub RateWindows : Type 0
RateWindows = List RateWindow

pub record RateLimiter : Type 0 where
  pub limit : ℕ
  pub window_seconds : ℕ

-- the checks of `__init__`
unfoldable pub rate_limiter : ℕ → ℕ → Result RateLimiter
rate_limiter limit window =
    guard (ltb 0 limit && ltb 0 window) value_error
    >> ok (record { limit = limit; window_seconds = window })

-- the primary key
abbrev pub in_window : String → ℕ → RateWindow → Bool
in_window key started r = r.rate_key == key && nat_eq r.window_started_at started

abbrev pub is_expired : ℕ → RateWindow → Bool
is_expired started r = ltb r.window_started_at started

abbrev pub first_request : String → ℕ → RateWindow
first_request key started = record {
  rate_key = key;
  window_started_at = started;
  request_count = 1;
}

abbrev pub count_request : RateWindow → RateWindow
count_request r = record r { request_count = r.request_count + 1 }

-- the INSERT with its ON CONFLICT clause, and whether it returns a row
abbrev pub insert_or_count : ℕ → String → ℕ → RateWindows → Option RateWindow → Bool × RateWindows
insert_or_count limit key started t none = (true, t ++ first_request key started ∷ [])
insert_or_count limit key started t (some r) =
    if ltb r.request_count limit
    then (true, update_where (in_window key started) count_request t)
    else (false, t)

unfoldable pub admit : ℕ → String → ℕ → RateWindows → Bool × RateWindows
admit limit key started t =
    let kept = delete_where (is_expired started) t in
    insert_or_count limit key started kept (find (in_window key started) kept)

-- now - (now % window_seconds)
abbrev pub window_epoch : ℕ → ℕ → ℕ
window_epoch window now = now - now % window

-- floor(epoch / window_seconds) * window_seconds, in the database
abbrev pub current_window : ℕ → ℕ → ℕ
current_window window now = now / window * window

-- `allow` with the time of the caller
unfoldable pub allow : RateLimiter → String → ℕ → RateWindows → Bool × RateWindows
unfolding admit
allow l key now t = admit l.limit key (window_epoch l.window_seconds now) t

-- `allow` without one, where `now` is CURRENT_TIMESTAMP
unfoldable pub allow_current : RateLimiter → String → ℕ → RateWindows → Bool × RateWindows
unfolding admit
allow_current l key now t = admit l.limit key (current_window l.window_seconds now) t
