-- ===== src/Prelude/Time.antt =====
-- Python's `datetime`: whether it carries a time zone, and the instant that `astimezone(UTC)` gives
-- (for a naive value the one that the host's zone gives), in microseconds of a fixed epoch.
-- Instants are stored as ISO texts in UTC, which sort and read back as the instants do.
use Prim.Native.Nat.{ℕ, ◌*◌}
use mathlib.Core.Bool.{Bool, true}

pub record DateTime : Type 0 where
  pub tz : Bool
  pub instant : ℕ

-- `value.astimezone(UTC)`, and a stored text read back by `datetime.fromisoformat`
abbrev pub utc : ℕ → DateTime
utc t = record { tz = true; instant = t }

-- `timedelta(seconds=n)`
abbrev pub seconds : ℕ → ℕ
seconds n = n * 1000000
