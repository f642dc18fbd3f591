-- ===== src/Prelude/Sorting.antt =====
-- A stable sort by a test, which stands for Python's `sorted` and for ORDER BY.
use Prim.Native.Nat.{ℕ, ◌+◌, suc}
use mathlib.Core.Path.{◌≡◌, refl, ap, ◌∙◌}
use mathlib.Core.Logic.{inl, inr}
use mathlib.Core.Bool.{Bool, true, false}
use mathlib.Core.List.{List, [], ◌∷◌}
use native.Mathlib.Omega.{arith}
use shelf_life_copilot.Prelude.Tests.{if◌then◌else◌, Bool-cases, length}
use shelf_life_copilot.Prelude.Table.{All, All-map, count_where}

module _ {ℓ} {A : Type ℓ} where
  -- the rows that a WHERE clause selects
  unfoldable pub filter : (A → Bool) → List A → List A
  filter p [] = []
  filter p (x ∷ xs) = let rest = filter p xs in if p x then x ∷ rest else rest

  unfoldable pub insert_by : (A → A → Bool) → A → List A → List A
  insert_by before x [] = x ∷ []
  insert_by before x (y ∷ ys) =
      let rest = insert_by before x ys in if before y x then y ∷ rest else x ∷ y ∷ ys

  unfoldable pub sort_by : (A → A → Bool) → List A → List A
  sort_by before [] = []
  sort_by before (x ∷ xs) = insert_by before x (sort_by before xs)

  pub filter-All : (p : A → Bool) (xs : List A) → All (λ x. p x ≡ true) (filter p xs)
  unfolding filter
  filter-All p [] = tt
  filter-All p (x ∷ xs) = elim (Bool-cases (p x)) [
    | inl e ↦ rw e (e, filter-All p xs)
    | inr e ↦ rw e (filter-All p xs)
  ]

  pub insert_by-All {κ} :
      (P : A → Type κ) (before : A → A → Bool) (x : A) (ys : List A)
      → P x
      → All P ys
      → All P (insert_by before x ys)
  unfolding insert_by
  insert_by-All P before x [] h k = (h, tt)
  insert_by-All P before x (y ∷ ys) h k = elim (Bool-cases (before y x)) [
    | inl e ↦ rw e (k.0, insert_by-All P before x ys h k.1)
    | inr e ↦ rw e (h, k)
  ]

  pub sort_by-All {κ} :
      (P : A → Type κ) (before : A → A → Bool) (xs : List A) → All P xs → All P (sort_by before xs)
  unfolding sort_by
  sort_by-All P before [] h = tt
  sort_by-All P before (x ∷ xs) h =
      insert_by-All P before x (sort_by before xs) h.0 (sort_by-All P before xs h.1)

  insert_by-count :
      (before : A → A → Bool) (p : A → Bool) (x : A) (ys : List A)
      → count_where p (insert_by before x ys) ≡ count_where p (x ∷ ys)
  unfolding insert_by count_where
  insert_by-count before p x [] = refl
  insert_by-count before p x (y ∷ ys) = elim (Bool-cases (before y x)) [
    | inl e ↦ rw e (omega (arith, insert_by-count before p x ys))
    | inr e ↦ rw e refl
  ]

  -- sorting keeps how many rows pass a test
  pub sort_by-count :
      (before : A → A → Bool) (p : A → Bool) (xs : List A)
      → count_where p (sort_by before xs) ≡ count_where p xs
  unfolding sort_by count_where
  sort_by-count before p [] = refl
  sort_by-count before p (x ∷ xs) =
      insert_by-count before p x (sort_by before xs) ∙ omega (arith, sort_by-count before p xs)

  insert_by-length :
      (before : A → A → Bool) (x : A) (ys : List A)
      → length (insert_by before x ys) ≡ suc (length ys)
  unfolding insert_by
  insert_by-length before x [] = refl
  insert_by-length before x (y ∷ ys) = elim (Bool-cases (before y x)) [
    | inl e ↦ rw e (ap suc (insert_by-length before x ys))
    | inr e ↦ rw e refl
  ]

  pub sort_by-length :
      (before : A → A → Bool) (xs : List A) → length (sort_by before xs) ≡ length xs
  unfolding sort_by
  sort_by-length before [] = refl
  sort_by-length before (x ∷ xs) =
      insert_by-length before x (sort_by before xs) ∙ ap suc (sort_by-length before xs)

module _ {ℓ} {A : Type ℓ} (f : A → ℕ) where
  -- `sum(f(x) for x in xs)`
  unfoldable pub sum_of : List A → ℕ
  sum_of [] = 0
  sum_of (x ∷ xs) = f x + sum_of xs

  insert_by-sum :
      (before : A → A → Bool) (x : A) (ys : List A)
      → sum_of (insert_by before x ys) ≡ f x + sum_of ys
  unfolding insert_by sum_of
  insert_by-sum before x [] = refl
  insert_by-sum before x (y ∷ ys) = elim (Bool-cases (before y x)) [
    | inl e ↦ rw e (omega (arith, insert_by-sum before x ys))
    | inr e ↦ rw e refl
  ]

  pub sort_by-sum : (before : A → A → Bool) (xs : List A) → sum_of (sort_by before xs) ≡ sum_of xs
  unfolding sort_by sum_of
  sort_by-sum before [] = refl
  sort_by-sum before (x ∷ xs) =
      insert_by-sum before x (sort_by before xs) ∙ omega (arith, sort_by-sum before xs)

-- Every row is in the relation to the rows after it.
abbrev pub Ascending {ℓ κ} : {A : Type ℓ} → (A → A → Type κ) → List A → Type κ
Ascending R [] = Unit
Ascending R (x ∷ xs) = All (R x) xs × Ascending R xs

module _ {ℓ κ} {A : Type ℓ} (before : A → A → Bool) (R : A → A → Type κ)
    (less : (a b : A) → before a b ≡ true → R a b)
    (not_less : (a b : A) → before a b ≡ false → R b a)
    (chain : (a b c : A) → R a b → R b c → R a c) where
  insert_by-Ascending : (x : A) (ys : List A) → Ascending R ys → Ascending R (insert_by before x ys)
  unfolding insert_by
  insert_by-Ascending x [] h = (tt, tt)
  insert_by-Ascending x (y ∷ ys) h = elim (Bool-cases (before y x)) [
    | inl e ↦ rw e (insert_by-All (R y) before x ys (less y x e) h.0, insert_by-Ascending x ys h.1)
    | inr e ↦
        (let near = not_less y x e in
          rw e ((near, All-map (R y) (R x) (λ z far. chain x y z near far) ys h.0), h))
  ]

  -- a sort by a test leaves the rows in the order that the test stands for
  pub sort_by-Ascending : (xs : List A) → Ascending R (sort_by before xs)
  unfolding sort_by
  sort_by-Ascending [] = tt
  sort_by-Ascending (x ∷ xs) = insert_by-Ascending x (sort_by before xs) (sort_by-Ascending xs)
