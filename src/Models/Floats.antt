-- ===== src/Models/Floats.antt =====
-- The arithmetic of floats that are not negative. An amount is a number of units, and the unit is a power
-- of two of which every amount at hand is a multiple; rounding keeps the multiples.
use shelf_life_copilot.Prelude.{ℕ, ◌+◌, ◌-◌, ◌≤◌, ◌<◌, ◌≡◌, List, [], ◌∷◌}

-- The operations of Python on floats: `+`, `-` of an amount that is not greater, `sum`, `/` by an amount
-- that is not 0, and 1.0, the last two in a unit of their own.
pub record Floats : Type 0 where
  pub add : ℕ → ℕ → ℕ
  pub sub : ℕ → ℕ → ℕ
  pub sum : List ℕ → ℕ
  pub quotient : ℕ → ℕ → ℕ
  pub one : ℕ

-- 2 ^ 53, to which the significand of a float counts without a gap
abbrev pub exact_limit : ℕ
exact_limit = 9007199254740992

-- the sum without rounding
unfoldable pub total : List ℕ → ℕ
total [] = 0
total (x ∷ xs) = x + total xs

-- What IEEE 754 says of them: a result that a float can hold is not rounded, and a quotient of at most 1
-- is not rounded to more than 1.
pub record IsIeee (F : Floats) : Type 0 where
  pub add_exact : (a b : ℕ) → a + b ≤ exact_limit → F.add a b ≡ a + b
  pub sub_exact : (a b : ℕ) → b ≤ a → a ≤ exact_limit → F.sub a b ≡ a - b
  pub sum_exact : (xs : List ℕ) → total xs ≤ exact_limit → F.sum xs ≡ total xs
  pub quotient_le : (a b : ℕ) → 0 < b → a ≤ b → F.quotient a b ≤ F.one
