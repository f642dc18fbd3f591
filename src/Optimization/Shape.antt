-- ===== src/Optimization/Shape.antt =====
-- What the allocation gives each batch, whatever the rounding of floats (src/optimization.py).
use shelf_life_copilot.Prelude.{
  ◌+◌, ◌≤◌, min, ◌≡◌, refl, ◌⊎◌, inl, inr, Bool, true, false, List, [], ◌∷◌, ok, arith,
  if◌then◌else◌, ltb, >>=-eq-ok,
}
use mathlib.Core.Path.{subst}
use shelf_life_copilot.Models.Action.{Amount, ActionType, action_eq}
use shelf_life_copilot.Optimization.{
  OptimizationBatch, OptimizationAssignment, better, best, taken, assignment, assign,
}
use shelf_life_copilot.Optimization.Order.{total_stock}
use shelf_life_copilot.Models.Floats.{Floats, total}

-- the amount that an action gets in all
abbrev pub used : ActionType → List OptimizationAssignment → Amount
used x [] = 0
used x (a ∷ rest) = if action_eq a.action x then a.allocated_qty + used x rest else used x rest

abbrev pub Allows : ActionType → List ActionType → Type 0
Allows x [] = ⊥
Allows x (a ∷ rest) = (x ≡ a) ⊎ Allows x rest

-- One assignment for each batch, in their order: of an allowed action and of no more than the stock.
abbrev pub IsPlan : List OptimizationBatch → List OptimizationAssignment → Type 0
IsPlan [] [] = Unit
IsPlan (b ∷ bs) (a ∷ rest) =
    (b.batch_id ≡ a.batch_id)
    × (a.allocated_qty ≤ b.stock_qty)
    × Allows a.action b.allowed_actions
    × IsPlan bs rest
IsPlan _ _ = ⊥

abbrev pub allocated : List OptimizationAssignment → Amount
allocated [] = 0
allocated (a ∷ rest) = a.allocated_qty + allocated rest

pick-Allows :
    (remaining : ActionType → Amount) (a c : ActionType) (rest : List ActionType) (t : Bool)
    → Allows (better remaining c rest) (c ∷ rest)
    → Allows (better remaining a rest) (a ∷ rest)
    → Allows (better remaining (if t then c else a) rest) (a ∷ c ∷ rest)
pick-Allows remaining a c rest true h k = inr h
pick-Allows remaining a c rest false h (inl k) = inl k
pick-Allows remaining a c rest false h (inr k) = inr (inr k)

better-Allows :
    (remaining : ActionType → Amount) (rest : List ActionType) (a : ActionType)
    → Allows (better remaining a rest) (a ∷ rest)
better-Allows remaining [] a = inl refl
better-Allows remaining (c ∷ rest) a =
    pick-Allows remaining a c rest (ltb (remaining a) (remaining c))
      (better-Allows remaining rest c) (better-Allows remaining rest a)

best-Allows :
    (remaining : ActionType → Amount) (allowed : List ActionType) {a : ActionType}
    → best remaining allowed ≡ ok a
    → Allows a allowed
best-Allows remaining [] h = cc
best-Allows remaining (x ∷ rest) {a} h =
    subst (λ y. Allows y (x ∷ rest)) (same h) (better-Allows remaining rest x)
  where
    same : {x y : ActionType} → ok x ≡ ok y → x ≡ y
    same h = cc

module _ (F : Floats) where
  pub split-assign :
      (remaining : ActionType → Amount) (b : OptimizationBatch) (bs : List OptimizationBatch)
      {out : List OptimizationAssignment}
      → assign F remaining (b ∷ bs) ≡ ok out
      → (a : ActionType) × (rest : List OptimizationAssignment) × (best remaining b.allowed_actions
          ≡ ok a)
        × (assign F (taken F remaining a (min b.stock_qty (remaining a))) bs ≡ ok rest)
        × (assignment remaining b a ∷ rest ≡ out)
  unfolding assign
  split-assign remaining b bs h =
      let (a, chosen, h2) = >>=-eq-ok (best remaining b.allowed_actions) _ h in
      let (rest, later, h3) =
        >>=-eq-ok (assign F (taken F remaining a (min b.stock_qty (remaining a))) bs) _ h2 in
      (a, rest, chosen, later, cc)

  pub nothing :
      (remaining : ActionType → Amount) {out : List OptimizationAssignment}
      → assign F remaining [] ≡ ok out
      → [] ≡ out
  unfolding assign
  nothing remaining h = cc

  pub assign-IsPlan :
      (bs : List OptimizationBatch) (remaining : ActionType → Amount)
      {out : List OptimizationAssignment}
      → assign F remaining bs ≡ ok out
      → IsPlan bs out
  assign-IsPlan [] remaining h = rw (← nothing remaining h) tt
  assign-IsPlan (b ∷ bs) remaining h =
      let (a, rest, chosen, later, same) = split-assign remaining b bs h in
      rw (← same) (
        refl,
        omega arith,
        best-Allows remaining b.allowed_actions chosen,
        assign-IsPlan bs (taken F remaining a (min b.stock_qty (remaining a))) later,
      )

abbrev pub HasActions : OptimizationBatch → Type 0
HasActions b = (a : ActionType) × (rest : List ActionType) × (b.allowed_actions ≡ a ∷ rest)

pub IsPlan-allocated :
    (bs : List OptimizationBatch) (out : List OptimizationAssignment)
    → IsPlan bs out
    → allocated out ≤ total_stock bs
unfolding total
IsPlan-allocated [] [] h = omega arith
IsPlan-allocated [] (a ∷ out) h = absurd h
IsPlan-allocated (b ∷ bs) [] h = absurd h
IsPlan-allocated (b ∷ bs) (a ∷ out) h =
    let rest = IsPlan-allocated bs out h.3 in let own = h.1 in omega arith
