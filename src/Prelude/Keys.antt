-- ===== src/Prelude/Keys.antt =====
-- Statements whose WHERE clause names a unique key: what a SELECT by the key sees after them.
use Prim.Native.Nat.{ℕ}
use mathlib.Core.Path.{◌≡◌, refl}
use mathlib.Core.Logic.{◌⊎◌, inl, inr}
use mathlib.Core.Bool.{Bool, true, false}
use mathlib.Core.Option.{Option, none, some}
use mathlib.Core.List.{List, [], ◌∷◌, ◌++◌}
use native.Mathlib.Omega.{arith}
use shelf_life_copilot.Prelude.Tests.{if◌then◌else◌, Bool-cases}
use shelf_life_copilot.Prelude.Table.{
  All, All-find, All-delete_where, find, contains, update_where, delete_where, count_where,
  find-cons,
}
use shelf_life_copilot.Prelude.Distinct.{Distinct}

module _ {ℓ} {A : Type ℓ} (conflict : A → A → Bool) where
  pub Distinct-delete_where :
      (q : A → Bool) (xs : List A) → Distinct conflict xs → Distinct conflict (delete_where q xs)
  unfolding delete_where
  Distinct-delete_where q [] h = tt
  Distinct-delete_where q (x ∷ xs) h = elim (Bool-cases (q x)) [
    | inl e ↦ rw e (Distinct-delete_where q xs h.1)
    | inr e ↦
        rw e (All-delete_where (λ y. conflict x y ≡ false) q xs h.0, Distinct-delete_where q xs h.1)
  ]

module _ {ℓ} {A : Type ℓ} (p q : A → Bool) where
  -- a row that a key names is no row that the other clause removes
  pub find-delete_other :
      ((a : A) → p a ≡ true → q a ≡ false) → (xs : List A) → find p (delete_where q xs) ≡ find p xs
  unfolding find delete_where
  find-delete_other apart [] = refl
  find-delete_other apart (x ∷ xs) = ground (arith, apart x, find-delete_other apart xs)

  -- nor one that the other clause changes
  pub find-update_other :
      (f : A → A)
      → ((a : A) → p a ≡ true → q a ≡ false)
      → ((a : A) → p (f a) ≡ p a)
      → (xs : List A) → find p (update_where q f xs) ≡ find p xs
  unfolding find update_where
  find-update_other f apart same [] = refl
  find-update_other f apart same (x ∷ xs) =
      ground (arith, apart x, same x, find-update_other f apart same xs)

  -- what a guarded clause does to the row that the key names
  abbrev pub kept_unless : Option A → Option A
  kept_unless none = none
  kept_unless (some a) = if q a then none else some a

  abbrev pub rows_hit : Option A → ℕ
  rows_hit none = 0
  rows_hit (some a) = if q a then 1 else 0

module _ {ℓ} {A : Type ℓ} (p : A → Bool) where
  -- an UPDATE that hits no row
  pub update_where-none :
      (f : A → A) (xs : List A) → count_where p xs ≡ 0 → update_where p f xs ≡ xs
  unfolding count_where update_where
  update_where-none f [] h = refl
  update_where-none f (x ∷ xs) h = ground (arith, update_where-none f xs)

one_or_none {ℓ} :
    {A : Type ℓ} (p q : A → Bool) (m : Option A) → (rows_hit p q m ≡ 0) ⊎ (rows_hit p q m ≡ 1)
one_or_none p q none = inl refl
one_or_none p q (some r) = ground arith

module _ {ℓ} {A : Type ℓ} (conflict : A → A → Bool) (p q : A → Bool)
    (same : (a b : A) → p a ≡ true → p b ≡ true → conflict a b ≡ true)
    (within : (a : A) → q a ≡ true → p a ≡ true) where
  rest_free :
      (x : A) (ys : List A)
      → p x ≡ true
      → All (λ y. conflict x y ≡ false) ys
      → (find p ys ≡ none) × (delete_where q ys ≡ ys) × (count_where q ys ≡ 0)
  unfolding find delete_where count_where
  rest_free x [] t n = (refl, refl, refl)
  rest_free x (y ∷ ys) t n = elim (Bool-cases (p y)) [
    | inl e ↦ absurd (cc (same x y t e, n.0))
    | inr e ↦
        (let (a, b, c) = rest_free x ys t n.1 in
          (ground arith, ground (arith, within y), ground (arith, within y)))
  ]

  pub find-delete_where :
      (xs : List A)
      → Distinct conflict xs
      → find p (delete_where q xs) ≡ kept_unless p q (find p xs)
  unfolding find delete_where
  find-delete_where [] d = refl
  find-delete_where (x ∷ xs) d = elim (Bool-cases (p x)) [
    | inl t ↦ (let (a, b, c) = rest_free x xs t d.0 in ground arith)
    | inr t ↦ ground (arith, within x, find-delete_where xs d.1)
  ]

  pub count_where_unique :
      (xs : List A) → Distinct conflict xs → count_where q xs ≡ rows_hit p q (find p xs)
  unfolding find count_where
  count_where_unique [] d = refl
  count_where_unique (x ∷ xs) d = elim (Bool-cases (p x)) [
    | inl t ↦ (let (a, b, c) = rest_free x xs t d.0 in ground arith)
    | inr t ↦ ground (arith, within x, count_where_unique xs d.1)
  ]

  -- a clause within a unique key hits one row or none
  pub count_where-one :
      (xs : List A) → Distinct conflict xs → (count_where q xs ≡ 0) ⊎ (count_where q xs ≡ 1)
  count_where-one xs d = rw (count_where_unique xs d) (one_or_none p q (find p xs))

module _ {ℓ} {A : Type ℓ} (p : A → Bool) where
  pub find-append_other : (xs : List A) (y : A) → p y ≡ false → find p (xs ++ y ∷ []) ≡ find p xs
  unfolding find
  find-append_other [] y h = rw h
  find-append_other (x ∷ xs) y h = ground (arith, find-append_other xs y h)

  -- the one row that is found was added last
  pub find-last :
      (xs : List A) (y : A) → contains p xs ≡ false → p y ≡ true → find p (xs ++ y ∷ []) ≡ some y
  unfolding find contains
  find-last [] y h t = rw t
  find-last (x ∷ xs) y h t = ground (arith, find-last xs y)

module _ {ℓ} {A : Type ℓ} (conflict : A → A → Bool) (p k : A → Bool) where
  -- the row that some SELECT returns is the one that its own key returns
  pub find-by_key :
      (xs : List A) {s : A}
      → Distinct conflict xs
      → find p xs ≡ some s
      → k s ≡ true
      → ((a : A) → k a ≡ true → conflict a s ≡ true)
      → find k xs ≡ some s
  unfolding find
  find-by_key [] d e t own = cc
  find-by_key (x ∷ xs) {s} d e t own = elim (find-cons p x xs e) [
    | inl (_, same) ↦ rw (same, t)
    | inr later ↦
        (let apart = All-find (λ y. conflict x y ≡ false) p xs d.0 later in
          let away : k x ≡ false = ground (arith, own x) in
          rw away (find-by_key xs d.1 later t own))
  ]
