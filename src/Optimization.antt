-- ===== src/Optimization.antt =====
-- The deterministic allocation across batches (`priority_baseline` of src/optimization.py). The rounding
-- of floats is an argument (Models.Floats). A capacity is not negative, which the schema of the endpoint demands
-- (src/api/schemas.py); an action without a capacity has 0, as in `remaining.get(action, 0.0)`.
pub mod Order
pub mod Shape
pub mod Capacity
pub mod Plans
pub mod Gate
use Prim.Native.String.{compare}
use Prim.Native.Nat.{Ordering}
use shelf_life_copilot.Prelude.{
  ℕ, ◌+◌, ◌-◌, min, String, Bool, true, false, ◌&&◌, ◌||◌, not, List, [], ◌∷◌, Result, ok, err,
  value_error, ltb, leb, guard, ◌>>◌, nat_eq, if◌then◌else◌, ◌>>=◌,
}
use shelf_life_copilot.Prelude.Int.{ℤ, ltb_ℤ}
use shelf_life_copilot.Models.Action.{Amount, ActionType, action_eq}
use shelf_life_copilot.Models.Floats.{Floats}

pub record OptimizationBatch : Type 0 where
  pub batch_id : String
  pub material_name : String
  pub days_left : ℤ
  pub stock_qty : Amount
  pub allowed_actions : List ActionType

pub record OptimizationRequest : Type 0 where
  pub customer_id : String
  pub batches : List OptimizationBatch
  pub capacity_by_action : ActionType → Amount

pub record OptimizationAssignment : Type 0 where
  pub batch_id : String
  pub action : ActionType
  pub allocated_qty : Amount

pub record OptimizationResult : Type 0 where
  pub assignments : List OptimizationAssignment
  pub coverage_rate : ℕ

abbrev is_lt : Ordering → Bool
is_lt Ordering.lt = true
is_lt _ = false

-- (a.days_left, a.batch_id) < (b.days_left, b.batch_id)
abbrev pub before : OptimizationBatch → OptimizationBatch → Bool
before a b =
    ltb_ℤ a.days_left b.days_left
    || (not (ltb_ℤ b.days_left a.days_left) && is_lt (compare a.batch_id b.batch_id))

unfoldable pub insert : OptimizationBatch → List OptimizationBatch → List OptimizationBatch
insert x [] = x ∷ []
insert x (y ∷ ys) = let rest = insert x ys in if before y x then y ∷ rest else x ∷ y ∷ ys

-- Python's `sorted`, which is stable, as an insertion sort
unfoldable pub sorted : List OptimizationBatch → List OptimizationBatch
sorted [] = []
sorted (x ∷ xs) = insert x (sorted xs)

abbrev pub better : (ActionType → Amount) → ActionType → List ActionType → ActionType
better remaining a [] = a
better remaining a (b ∷ rest) =
    better remaining (if ltb (remaining a) (remaining b) then b else a) rest

-- `max(allowed, key=...)`: the first of the greatest
abbrev pub best : (ActionType → Amount) → List ActionType → Result ActionType
best remaining [] = err value_error
best remaining (a ∷ rest) = ok (better remaining a rest)

abbrev pub assignment :
    (ActionType → Amount) → OptimizationBatch → ActionType → OptimizationAssignment
assignment remaining b a = record {
  batch_id = b.batch_id;
  action = a;
  allocated_qty = min b.stock_qty (remaining a);
}

abbrev pub stocks : List OptimizationBatch → List Amount
stocks [] = []
stocks (b ∷ bs) = b.stock_qty ∷ stocks bs

module _ (F : Floats) where
  -- remaining[action] = remaining.get(action, 0.0) - quantity
  abbrev pub taken : (ActionType → Amount) → ActionType → Amount → ActionType → Amount
  taken remaining a qty b = if action_eq a b then F.sub (remaining b) qty else remaining b

  -- the loop over the batches in their order
  unfoldable pub assign :
      (ActionType → Amount) → List OptimizationBatch → Result (List OptimizationAssignment)
  unfolding action_eq
  assign remaining [] = ok []
  assign remaining (b ∷ bs) = do
    a ← best remaining b.allowed_actions
    rest ← assign (taken remaining a (min b.stock_qty (remaining a))) bs
    ok (assignment remaining b a ∷ rest)

  -- allocated += quantity
  unfoldable pub allocate : Amount → List OptimizationAssignment → Amount
  allocate allocated [] = allocated
  allocate allocated (a ∷ rest) = allocate (F.add allocated a.allocated_qty) rest

  -- 1.0 if total == 0 else allocated / total
  abbrev pub coverage : Amount → Amount → ℕ
  coverage allocated total = if nat_eq total 0 then F.one else F.quotient allocated total

  -- `OptimizationResult`, whose rate is 1 at most
  unfoldable pub optimization_result : List OptimizationAssignment → ℕ → Result OptimizationResult
  optimization_result assignments rate =
      guard (leb rate F.one) value_error
      >> ok (record { assignments = assignments; coverage_rate = rate })

  unfoldable pub priority_baseline : OptimizationRequest → Result OptimizationResult
  unfolding sorted assign allocate optimization_result
  priority_baseline r = assign r.capacity_by_action (sorted r.batches) >>= λ assignments.
      optimization_result assignments (coverage (allocate 0 assignments) (F.sum (stocks r.batches)))
