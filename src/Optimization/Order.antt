-- ===== src/Optimization/Order.antt =====
-- The order in which the allocation visits the batches (`sorted` in src/optimization.py).
use shelf_life_copilot.Prelude.{
  ◌+◌, ◌≡◌, refl, ◌∙◌, Bool, true, false, List, [], ◌∷◌, arith, Bool-cases, inl, inr, ◌||◌, ◌&&◌,
  not, ◌⊎◌,
}
use shelf_life_copilot.Prelude.Table.{All, All-map, count_where}
use shelf_life_copilot.Prelude.Int.{ℤ, ◌≤ℤ◌, ltb_ℤ}
use shelf_life_copilot.Optimization.{OptimizationBatch, before, insert, sorted, stocks}
use shelf_life_copilot.Models.Floats.{total}
use shelf_life_copilot.Models.Action.{Amount}

abbrev pub NoLaterThan : OptimizationBatch → OptimizationBatch → Type 0
NoLaterThan a b = a.days_left ≤ℤ b.days_left

-- Every batch has no more days left than the batches after it.
abbrev pub IsUrgentFirst : List OptimizationBatch → Type 0
IsUrgentFirst [] = Unit
IsUrgentFirst (b ∷ bs) = All (NoLaterThan b) bs × IsUrgentFirst bs

insert-All :
    (P : OptimizationBatch → Type 0) (x : OptimizationBatch) (ys : List OptimizationBatch)
    → P x
    → All P ys
    → All P (insert x ys)
unfolding insert
insert-All P x [] h k = (h, tt)
insert-All P x (y ∷ ys) h k = elim (Bool-cases (before y x)) [
  | inl e ↦ rw e (k.0, insert-All P x ys h k.1)
  | inr e ↦ rw e (h, k)
]

days_leb : (a b : ℤ) → ltb_ℤ a b ≡ false → b ≤ℤ a
days_leb a b h = ground arith

either : (p q r : Bool) → p || (not q && r) ≡ true → (p ≡ true) ⊎ (q ≡ false)
either p q r h = ground arith

days_ltb : (a b : ℤ) → ltb_ℤ a b ≡ true → a ≤ℤ b
days_ltb a b h = ground arith

before-days : (a b : OptimizationBatch) → before a b ≡ true → NoLaterThan a b
before-days a b h = elim (either _ _ _ h) [
  | inl e ↦ days_ltb a.days_left b.days_left e
  | inr e ↦ days_leb b.days_left a.days_left e
]

not-before-days : (a b : OptimizationBatch) → before a b ≡ false → NoLaterThan b a
not-before-days a b h = elim (Bool-cases (ltb_ℤ a.days_left b.days_left)) [
  | inl e ↦ absurd (cc (rw e at h))
  | inr e ↦ days_leb a.days_left b.days_left e
]

insert-IsUrgentFirst :
    (x : OptimizationBatch) (ys : List OptimizationBatch)
    → IsUrgentFirst ys
    → IsUrgentFirst (insert x ys)
unfolding insert
insert-IsUrgentFirst x [] h = (tt, tt)
insert-IsUrgentFirst x (y ∷ ys) h = elim (Bool-cases (before y x)) [
  | inl e ↦
      rw e (insert-All (NoLaterThan y) x ys (before-days y x e) h.0, insert-IsUrgentFirst x ys h.1)
  | inr e ↦ rw e (
      let near = not-before-days y x e in
      (
        (
          near,
          All-map (NoLaterThan y) (NoLaterThan x)
              (λ z far. days_trans x.days_left y.days_left z.days_left near far) ys h.0,
        ),
        h,
      ))
]
  where
    days_trans : (i j k : ℤ) → i ≤ℤ j → j ≤ℤ k → i ≤ℤ k
    days_trans i j k h l = omega arith

-- The allocation visits the batches by their days left, the most urgent first.
pub sorted-IsUrgentFirst : (bs : List OptimizationBatch) → IsUrgentFirst (sorted bs)
unfolding sorted
sorted-IsUrgentFirst [] = tt
sorted-IsUrgentFirst (b ∷ bs) = insert-IsUrgentFirst b (sorted bs) (sorted-IsUrgentFirst bs)

count_where-insert :
    (p : OptimizationBatch → Bool) (x : OptimizationBatch) (ys : List OptimizationBatch)
    → count_where p (insert x ys) ≡ count_where p (x ∷ ys)
unfolding insert count_where
count_where-insert p x [] = refl
count_where-insert p x (y ∷ ys) = ground (arith, count_where-insert p x ys)

-- It visits each of them as often as the request lists it.
pub count_where-sorted :
    (p : OptimizationBatch → Bool) (bs : List OptimizationBatch)
    → count_where p (sorted bs) ≡ count_where p bs
unfolding sorted count_where
count_where-sorted p [] = refl
count_where-sorted p (b ∷ bs) =
    count_where-insert p b (sorted bs)
    ∙ (unfold count_where in ground (arith, count_where-sorted p bs))

abbrev pub total_stock : List OptimizationBatch → Amount
total_stock bs = total (stocks bs)

total_stock-insert :
    (x : OptimizationBatch) (ys : List OptimizationBatch)
    → total_stock (insert x ys) ≡ x.stock_qty + total_stock ys
unfolding insert total
total_stock-insert x [] = refl
total_stock-insert x (y ∷ ys) = ground (arith, total_stock-insert x ys)

pub total_stock-sorted : (bs : List OptimizationBatch) → total_stock (sorted bs) ≡ total_stock bs
unfolding sorted total
total_stock-sorted [] = refl
total_stock-sorted (b ∷ bs) =
    ground (arith, total_stock-insert b (sorted bs), total_stock-sorted bs)
