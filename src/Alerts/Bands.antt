-- ===== src/Alerts/Bands.antt =====
-- The severities are bands of the days that are left (src/alerts/monitor.py).
use shelf_life_copilot.Prelude.{ℕ, ◌+◌, ◌≤◌, ◌≡◌, ◌↔◌, none, some, ok, arith}
use shelf_life_copilot.Prelude.Int.{ℤ, ◌≤ℤ◌, ◌<ℤ◌, pos_part, neg_part}
use shelf_life_copilot.Models.Batch.{
  Batch, Alert, AlertThresholds, Severity, yellow, orange, red, alert_thresholds,
}
use shelf_life_copilot.Alerts.{calculate_days_left, classify_severity, scan_batch}

abbrev pub urgency : Severity → ℕ
urgency Severity.none = 0
urgency yellow = 1
urgency orange = 2
urgency red = 3

-- With thresholds that construction accepts, each severity is given on exactly its own band of days:
-- red up to the red threshold, orange above it and up to the orange one, yellow above that and up to
-- the yellow one, and none above.
pub classify_severity-bands :
    (y o r days : ℤ) {th : AlertThresholds}
    → alert_thresholds y o r ≡ ok th
    → ((classify_severity days th ≡ red) ↔ (days ≤ℤ r))
      × ((classify_severity days th ≡ orange) ↔ ((r <ℤ days) × (days ≤ℤ o)))
      × ((classify_severity days th ≡ yellow) ↔ ((o <ℤ days) × (days ≤ℤ y)))
      × ((classify_severity days th ≡ Severity.none) ↔ (y <ℤ days))
unfolding classify_severity alert_thresholds
classify_severity-bands y o r days h = (
  (λ e. ground arith, λ e. ground arith),
  (λ e. ground arith, λ e. ground arith),
  (λ e. ground arith, λ e. ground arith),
  (λ e. ground arith, λ e. ground arith),
)

-- Fewer days left never make an alert less urgent, whatever the thresholds are.
pub classify_severity-antitone :
    (a b : ℤ) (th : AlertThresholds)
    → a ≤ℤ b
    → urgency (classify_severity b th) ≤ urgency (classify_severity a th)
unfolding classify_severity
classify_severity-antitone a b th h = ground arith

-- With thresholds that construction accepts, a scan raises no alert exactly when the batch expires
-- after the yellow threshold; an alert is about the batch, and its days, added to the day of the
-- scan, give the day of expiry, also when that is past.
pub scan_batch-alert :
    (batch : Batch) (y o r : ℤ) (today : ℕ) {th : AlertThresholds}
    → alert_thresholds y o r ≡ ok th
    → ((scan_batch batch th today ≡ none) ↔ (y <ℤ calculate_days_left batch.expiry_date today))
      × ((a : Alert)
          → scan_batch batch th today ≡ some a
          → (a.batch_id ≡ batch.batch_id)
            × (a.customer_id ≡ batch.customer_id)
            × (a.severity ≡ classify_severity a.days_left th)
            × (pos_part a.days_left + today ≡ neg_part a.days_left + batch.expiry_date))
unfolding scan_batch alert_thresholds
scan_batch-alert batch y o r today h = (
  (λ e. ground arith, λ e. ground arith),
  λ a e. (ground arith, ground arith, ground arith, ground arith),
)
