-- ===== src/Optimization/Capacity.antt =====
-- What the allocation promises (`priority_baseline` of src/optimization.py).
use shelf_life_copilot.Prelude.{
  ℕ, ◌-◌, ◌∙◌, nat_eq, ◌+◌, ◌≤◌, min, ◌≡◌, refl, inl, inr, List, [], ◌∷◌, ok, arith, Bool-cases,
}
use shelf_life_copilot.Prelude.Table.{All}
use shelf_life_copilot.Models.Action.{Amount, ActionType, action_eq, action_eq_iff}
use shelf_life_copilot.Optimization.{
  OptimizationBatch, OptimizationRequest, OptimizationAssignment, OptimizationResult, sorted,
  better, taken, assignment, assign, stocks, allocate, coverage, optimization_result,
  priority_baseline,
}
use shelf_life_copilot.Optimization.Order.{total_stock, total_stock-sorted}
use shelf_life_copilot.Models.Floats.{Floats, IsIeee, exact_limit}
use shelf_life_copilot.Optimization.Shape.{
  used, IsPlan, allocated, split-assign, nothing, assign-IsPlan, HasActions, IsPlan-allocated,
}

-- Amounts that floats add without rounding: the stock of all batches together, and every capacity.
pub record IsExact (r : OptimizationRequest) : Type 0 where
  pub stock : total_stock r.batches ≤ exact_limit
  pub capacity : (x : ActionType) → r.capacity_by_action x ≤ exact_limit

module _ (F : Floats) (ieee : IsIeee F) where
  taken-le :
      (remaining : ActionType → Amount) (a : ActionType) (qty : Amount)
      → qty ≤ remaining a
      → ((x : ActionType) → remaining x ≤ exact_limit)
      → (x : ActionType) → taken F remaining a qty x ≤ exact_limit
  taken-le remaining a qty small h x = elim (Bool-cases (action_eq a x)) [
    | inl e ↦
        (let same = (action_eq_iff a x).0 e in
          let left : F.sub (remaining a) qty ≡ remaining a - qty =
            ieee.sub_exact (remaining a) qty small (h a) in
          rw (e, ← same, left) (omega (arith, h a)))
    | inr e ↦ rw e (h x)
  ]

  pub assign-used :
      (bs : List OptimizationBatch) (remaining : ActionType → Amount)
      {out : List OptimizationAssignment}
      → ((x : ActionType) → remaining x ≤ exact_limit)
      → assign F remaining bs ≡ ok out
      → (x : ActionType) → used x out ≤ remaining x
  assign-used [] remaining small h x = rw (← nothing F remaining h) (omega arith)
  assign-used (b ∷ bs) remaining small h x =
      let (a, rest, chosen, later, same) = split-assign F remaining b bs h in
      let within =
        assign-used bs (taken F remaining a (min b.stock_qty (remaining a)))
          (taken-le remaining a (min b.stock_qty (remaining a)) (omega arith) small) later x in
      let left : F.sub (remaining a) (min b.stock_qty (remaining a))
          ≡ remaining a - min b.stock_qty (remaining a) =
        ieee.sub_exact (remaining a) (min b.stock_qty (remaining a)) (omega arith) (small a) in
      rw (← same) (fits remaining b a x rest left within)
    where
      fits :
          (remaining : ActionType → Amount) (b : OptimizationBatch) (a x : ActionType)
          (rest : List OptimizationAssignment)
          → F.sub (remaining a) (min b.stock_qty (remaining a))
            ≡ remaining a - min b.stock_qty (remaining a)
          → used x rest ≤ taken F remaining a (min b.stock_qty (remaining a)) x
          → used x (assignment remaining b a ∷ rest) ≤ remaining x
      fits remaining b a x rest left h = elim (Bool-cases (action_eq a x)) [
        | inl e ↦
            (let same = (action_eq_iff a x).0 e in
              let left_x : F.sub (remaining x) (min b.stock_qty (remaining x))
                  ≡ remaining x - min b.stock_qty (remaining x) =
                rw same at left in
              let h2 = rw (e, same, left_x) at h in rw (e, same) (omega (arith, h2)))
        | inr e ↦ rw e (rw e at h)
      ]

  allocate_exact :
      (out : List OptimizationAssignment) (before : Amount)
      → before + allocated out ≤ exact_limit
      → allocate F before out ≡ before + allocated out
  unfolding allocate
  allocate_exact [] before h = omega arith
  allocate_exact (a ∷ out) before h =
      let here : F.add before a.allocated_qty ≡ before + a.allocated_qty =
        ieee.add_exact before a.allocated_qty (omega arith) in
      let later = allocate_exact out (before + a.allocated_qty) (omega arith) in
      rw here (omega (arith, later))

  coverage_le : (a t : Amount) → a ≤ t → coverage F a t ≤ F.one
  coverage_le a t h = elim (Bool-cases (nat_eq t 0)) [
    | inl e ↦ rw e (omega arith)
    | inr e ↦ rw e (ieee.quotient_le a t (ground arith) h)
  ]

  assign_total :
      (bs : List OptimizationBatch) (remaining : ActionType → Amount)
      → All HasActions bs
      → (out : List OptimizationAssignment) × (assign F remaining bs ≡ ok out)
  unfolding assign
  assign_total [] remaining h = ([], refl)
  assign_total (b ∷ bs) remaining h =
      let (a, rest, some_action) = h.0 in
      let chosen = better remaining a rest in
      let (out, later) =
        assign_total bs (taken F remaining chosen (min b.stock_qty (remaining chosen))) h.1 in
      (assignment remaining b chosen ∷ out, rw (some_action, later) refl)

  -- What the allocation of a request promises.
  pub record IsAllocation (r : OptimizationRequest) (p : OptimizationResult) : Type 0 where
    pub capacity_safe : (x : ActionType) → used x p.assignments ≤ r.capacity_by_action x
    pub plan : IsPlan (sorted r.batches) p.assignments
    pub rate : p.coverage_rate ≡ coverage F (allocated p.assignments) (total_stock r.batches)
    pub rate_at_most_one : p.coverage_rate ≤ F.one

  result-ok :
      (out : List OptimizationAssignment) (rate : ℕ)
      → rate ≤ F.one
      → optimization_result F out rate ≡ ok (record { assignments = out; coverage_rate = rate })
  unfolding optimization_result
  result-ok out rate h = ground arith

  -- If every batch of a request allows some action, and all stock together and every capacity are amounts
  -- that floats add without rounding, `priority_baseline` returns a result. It gives every batch, in
  -- the sorted order, one assignment of an allowed action and of at most its stock, gives no action
  -- more than its capacity in all, and its coverage rate is the allocated part of all stock, 1 at most.
  pub priority_baseline-IsAllocation :
      (r : OptimizationRequest)
      → IsExact r
      → All HasActions (sorted r.batches)
      → (p : OptimizationResult) × (priority_baseline F r ≡ ok p) × IsAllocation r p
  unfolding priority_baseline
  priority_baseline-IsAllocation r exact h =
      let (out, e) = assign_total (sorted r.batches) r.capacity_by_action h in
      let plan = assign-IsPlan F (sorted r.batches) r.capacity_by_action e in
      let bounded : allocated out ≤ total_stock r.batches =
        rw (total_stock-sorted r.batches) at (IsPlan-allocated (sorted r.batches) out plan) in
      let sums : allocate F 0 out ≡ allocated out =
        allocate_exact out 0 (omega (arith, exact.stock)) ∙ omega arith in
      let stock : F.sum (stocks r.batches) ≡ total_stock r.batches =
        ieee.sum_exact (stocks r.batches) exact.stock in
      let rate = coverage_le (allocated out) (total_stock r.batches) bounded in
      (
        record {
          assignments = out;
          coverage_rate = coverage F (allocated out) (total_stock r.batches);
        },
        rw (e, sums, stock)
            (result-ok out (coverage F (allocated out) (total_stock r.batches)) rate),
        record {
          capacity_safe = assign-used (sorted r.batches) r.capacity_by_action exact.capacity e;
          plan = plan;
          rate = refl;
          rate_at_most_one = rate;
        },
      )
