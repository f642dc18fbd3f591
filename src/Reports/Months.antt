-- ===== src/Reports/Months.antt =====
-- The months of the reports (src/reports/runner.py and sources.py).
use shelf_life_copilot.Prelude.{ℕ, ◌<◌, ◌≡◌, refl, true, nat_eq, arith, Bool-cases, inl, inr}
use shelf_life_copilot.Reports.{Month, is_month, previous_month, next_month}

pair_same : {a b c d : ℕ} → a ≡ c → b ≡ d → ◌≡◌ {A = Month} (a, b) (c, d)
pair_same e f = rw (e, f) refl

-- The window that is loaded for the previous month ends where this month starts, in January too,
-- where the year is not the first.
pub next_month-previous_month :
    (m : Month) → is_month m ≡ true → 0 < m.0 → next_month (previous_month m) ≡ m
unfolding next_month previous_month
next_month-previous_month (year, month) h pos = elim (Bool-cases (nat_eq month 1)) [
  | inl e ↦ rw e (pair_same (ground arith) (ground arith))
  | inr e ↦ rw e (pair_same (ground arith) (ground arith))
]
