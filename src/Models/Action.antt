-- ===== src/Models/Action.antt =====
-- The closed set of disposal actions (src/models/action.py).
use shelf_life_copilot.Prelude.{ℕ, ◌≡◌, ◌↔◌, Bool, arith, nat_eq}

-- Amounts of stock and of money: a float of the program that is not negative, as a number of units
-- (Models.Floats). The models' code copies and compares amounts.
abbrev pub Amount : Type 0
Amount = ℕ

pub data ActionType : Type 0 where
  transform : ActionType
  discount_clearance : ActionType
  employee_canteen : ActionType
  transfer_warehouse : ActionType
  report_loss : ActionType

-- the position in the enumeration
abbrev ordinal : ActionType → ℕ
ordinal transform = 0
ordinal discount_clearance = 1
ordinal employee_canteen = 2
ordinal transfer_warehouse = 3
ordinal report_loss = 4

unfoldable pub action_eq : ActionType → ActionType → Bool
action_eq a b = nat_eq (ordinal a) (ordinal b)

pub action_eq_iff : (a b : ActionType) → (action_eq a b ≡ Bool.true) ↔ (a ≡ b)
unfolding action_eq
action_eq_iff a b = ground arith
