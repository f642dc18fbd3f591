-- ===== src/Alerts.antt =====
-- The monitoring engine (src/alerts/monitor.py).
pub mod Bands
use shelf_life_copilot.Prelude.{ℕ, Bool, Option, none, some, if◌then◌else◌}
use shelf_life_copilot.Prelude.Int.{ℤ, sub_ℕ, leb_ℤ}
use shelf_life_copilot.Models.Batch.{Batch, Alert, AlertThresholds, Severity, yellow, orange, red}

-- with the day of the scan given
unfoldable pub calculate_days_left : ℕ → ℕ → ℤ
calculate_days_left expiry_date today = sub_ℕ expiry_date today

unfoldable pub classify_severity : ℤ → AlertThresholds → Severity
classify_severity days th =
    if leb_ℤ days th.red
    then red
    else if leb_ℤ days th.orange
    then orange
    else if leb_ℤ days th.yellow
    then yellow
    else Severity.none

abbrev alert_for : Batch → ℤ → Severity → Option Alert
alert_for batch days Severity.none = none
alert_for batch days s = some (record {
  batch_id = batch.batch_id;
  customer_id = batch.customer_id;
  severity = s;
  days_left = days;
})

unfoldable pub scan_batch : Batch → AlertThresholds → ℕ → Option Alert
unfolding calculate_days_left classify_severity
scan_batch batch th today =
    let days = calculate_days_left batch.expiry_date today in
    alert_for batch days (classify_severity days th)
