-- ===== src/Models/Customer.antt =====
-- A customer's configuration (src/models/customer.py), without the fields that only the prompts, the
-- cards and the reports' texts read.
use shelf_life_copilot.Prelude.{
  String, Bool, true, false, not, List, [], ◌∷◌, Result, ok, guard, ◌>>◌, value_error,
}
use shelf_life_copilot.Prelude.Table.{contains}
use shelf_life_copilot.Models.Action.{Amount, ActionType, action_eq}
use shelf_life_copilot.Models.Batch.{AlertThresholds}

pub record CustomerConfig : Type 0 where
  pub customer_id : String
  pub enabled_actions : List ActionType
  pub disabled_actions : List ActionType
  pub alert_thresholds : AlertThresholds
  pub annual_baseline_loss : Amount

-- `action in actions`
abbrev pub includes : List ActionType → ActionType → Bool
includes actions a = contains (action_eq a) actions

abbrev overlap : CustomerConfig → Bool
overlap c = contains (includes c.disabled_actions) c.enabled_actions

abbrev is_empty : List ActionType → Bool
is_empty [] = true
is_empty (_ ∷ _) = false

-- `_check_action_consistency`, which construction runs
unfoldable pub validate_config : CustomerConfig → Result CustomerConfig
unfolding action_eq
validate_config c =
    guard (not (overlap c)) value_error
    >> guard (not (is_empty c.enabled_actions)) value_error
    >> ok c
