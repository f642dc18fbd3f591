-- ===== src/Models/Batch.antt =====
-- Inventory batches, severities, thresholds and alerts (src/models/batch.py, thresholds.py,
-- alert.py). A date is its ordinal, the number of days from a fixed first day.
use shelf_life_copilot.Prelude.{ℕ, String, ◌&&◌, Result, ok, guard, ◌>>◌, value_error}
use shelf_life_copilot.Prelude.Int.{ℤ, ltb_ℤ}
use shelf_life_copilot.Models.Action.{Amount}

pub data Severity : Type 0 where
  none yellow orange red : Severity

pub record Batch : Type 0 where
  pub batch_id : String
  pub material_id : String
  pub material_name : String
  pub production_date : ℕ
  pub expiry_date : ℕ
  pub stock_qty : Amount
  pub unit : String
  pub warehouse : String
  pub customer_id : String

pub record AlertThresholds : Type 0 where
  pub yellow : ℤ
  pub orange : ℤ
  pub red : ℤ

-- the dataclass with its `__post_init__`
unfoldable pub alert_thresholds : ℤ → ℤ → ℤ → Result AlertThresholds
alert_thresholds y o r =
    guard (ltb_ℤ r o && ltb_ℤ o y) value_error >> ok (record { yellow = y; orange = o; red = r })

pub record Alert : Type 0 where
  pub batch_id : String
  pub customer_id : String
  pub severity : Severity
  pub days_left : ℤ
