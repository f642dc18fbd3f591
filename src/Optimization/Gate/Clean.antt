-- ===== src/Optimization/Gate/Clean.antt =====
-- What the gate finds for the allocation (`evaluate_optimizer` of src/optimization.py).
use shelf_life_copilot.Prelude.{◌≤◌, ◌≡◌, true, List, [], ◌∷◌, Bool-cases, inl, inr, arith}
use shelf_life_copilot.Models.Action.{ActionType, action_eq}
use shelf_life_copilot.Optimization.{OptimizationAssignment}
use shelf_life_copilot.Optimization.Shape.{used, allocated}
use shelf_life_copilot.Models.Floats.{Floats}
use shelf_life_copilot.Optimization.Gate.{Checked}

used_le : (x : ActionType) (out : List OptimizationAssignment) → used x out ≤ allocated out
used_le x [] = omega arith
used_le x (a ∷ out) = elim (Bool-cases (action_eq a.action x)) [
  | inl e ↦ rw e (omega (arith, used_le x out))
  | inr e ↦ rw e (omega (arith, used_le x out))
]

abbrev pub IsClean : Checked → Type 0
IsClean c = (c.deterministic ≡ true) × (c.capacity_safe ≡ true) × (c.assignment_complete ≡ true)
