-- ===== src/Prelude/Distinct.antt =====
-- Uniqueness constraints: no earlier row of the table is in conflict with a later one.
use mathlib.Core.Path.{◌≡◌, refl}
use mathlib.Core.Logic.{inl, inr}
use mathlib.Core.Bool.{Bool, true, false}
use mathlib.Core.Option.{some}
use mathlib.Core.List.{List, [], ◌∷◌, ◌++◌}
use native.Mathlib.Omega.{arith}
use shelf_life_copilot.Prelude.Tests.{Bool-cases}
use shelf_life_copilot.Prelude.Table.{
  All, contains, update_where, All-append, All-map, find, find-head, find-tail,
}

abbrev pub Distinct {ℓ} : {A : Type ℓ} → (A → A → Bool) → List A → Type 0
Distinct conflict [] = Unit
Distinct conflict (x ∷ xs) = All (λ y. conflict x y ≡ false) xs × Distinct conflict xs

module _ {ℓ} {A : Type ℓ} where
  pub All-contains-false :
      (p : A → Bool) (xs : List A) → contains p xs ≡ false → All (λ x. p x ≡ false) xs
  unfolding contains
  All-contains-false p [] h = tt
  All-contains-false p (x ∷ xs) h = elim (Bool-cases (p x)) [
    | inl e ↦ absurd (cc (rw e at h))
    | inr e ↦ (e, All-contains-false p xs (rw e at h))
  ]

  pub contains-append_true :
      (p : A → Bool) (xs ys : List A) → contains p xs ≡ true → contains p (xs ++ ys) ≡ true
  unfolding contains
  contains-append_true p [] ys h = absurd (cc)
  contains-append_true p (x ∷ xs) ys h = elim (Bool-cases (p x)) [
    | inl e ↦ rw e
    | inr e ↦ rw e (contains-append_true p xs ys (rw e at h))
  ]

  pub contains-append_last :
      (p : A → Bool) (xs : List A) (y : A) → p y ≡ true → contains p (xs ++ y ∷ []) ≡ true
  unfolding contains
  contains-append_last p [] y h = rw h
  contains-append_last p (x ∷ xs) y h = elim (Bool-cases (p x)) [
    | inl e ↦ rw e
    | inr e ↦ rw e (contains-append_last p xs y h)
  ]

  pub contains-update_where :
      (p q : A → Bool) (f : A → A)
      → ((a : A) → p (f a) ≡ p a)
      → (xs : List A) → contains p (update_where q f xs) ≡ contains p xs
  unfolding contains update_where
  contains-update_where p q f same [] = refl
  contains-update_where p q f same (x ∷ xs) =
      ground (arith, same x, contains-update_where p q f same xs)

module _ {ℓ} {A : Type ℓ} (conflict : A → A → Bool) where
  pub Distinct-append :
      (xs : List A) (y : A)
      → Distinct conflict xs
      → All (λ x. conflict x y ≡ false) xs
      → Distinct conflict (xs ++ y ∷ [])
  Distinct-append [] y h n = (tt, tt)
  Distinct-append (x ∷ xs) y h n = (
    All-append (λ z. conflict x z ≡ false) xs (y ∷ []) h.0 (n.0, tt),
    Distinct-append xs y h.1 n.1,
  )

  All-free_update :
      (p : A → Bool) (f : A → A)
      → ((a b : A) → conflict a (f b) ≡ conflict a b)
      → (x : A) (xs : List A) → All (λ y. conflict x y ≡ false) xs
      → All (λ y. conflict x y ≡ false) (update_where p f xs)
  unfolding update_where
  All-free_update p f same x [] h = tt
  All-free_update p f same x (y ∷ ys) h =
      (ground (arith, same x y), All-free_update p f same x ys h.1)

  -- An UPDATE that leaves the constrained columns alone keeps the constraint.
  pub Distinct-update_where :
      (p : A → Bool) (f : A → A)
      → ((a b : A) → conflict a (f b) ≡ conflict a b)
      → ((a b : A) → conflict (f a) b ≡ conflict a b)
      → (xs : List A) → Distinct conflict xs
      → Distinct conflict (update_where p f xs)
  unfolding update_where
  Distinct-update_where p f later earlier [] h = tt
  Distinct-update_where p f later earlier (x ∷ xs) h =
      let rest = All-free_update p f later x xs h.0 in
      let tail = Distinct-update_where p f later earlier xs h.1 in
      elim (Bool-cases (p x)) [
        | inl e ↦ rw e (
          All-map (λ y. conflict x y ≡ false) (λ y. conflict (f x) y ≡ false)
              (λ y c. rw (earlier x y) c) (update_where p f xs) rest,
          tail,
        )
        | inr e ↦ rw e (rest, tail)
      ]

module _ {ℓ} {A : Type ℓ} (conflict : A → A → Bool) where
  All-free_fewer :
      (p : A → Bool) (f : A → A)
      → ((a b : A) → conflict a b ≡ false → conflict a (f b) ≡ false)
      → (x : A) (xs : List A) → All (λ y. conflict x y ≡ false) xs
      → All (λ y. conflict x y ≡ false) (update_where p f xs)
  unfolding update_where
  All-free_fewer p f fewer x [] h = tt
  All-free_fewer p f fewer x (y ∷ ys) h =
      (ground (arith, fewer x y), All-free_fewer p f fewer x ys h.1)

  -- An UPDATE that brings no row into conflict keeps the constraint.
  pub Distinct-update_fewer :
      (p : A → Bool) (f : A → A)
      → ((a b : A) → conflict a b ≡ false → conflict a (f b) ≡ false)
      → ((a b : A) → conflict a b ≡ false → conflict (f a) b ≡ false)
      → (xs : List A) → Distinct conflict xs
      → Distinct conflict (update_where p f xs)
  unfolding update_where
  Distinct-update_fewer p f later earlier [] h = tt
  Distinct-update_fewer p f later earlier (x ∷ xs) h =
      let rest = All-free_fewer p f later x xs h.0 in
      let tail = Distinct-update_fewer p f later earlier xs h.1 in
      elim (Bool-cases (p x)) [
        | inl e ↦ rw e (
          All-map (λ y. conflict x y ≡ false) (λ y. conflict (f x) y ≡ false) (λ y. earlier x y)
              (update_where p f xs) rest,
          tail,
        )
        | inr e ↦ rw e (rest, tail)
      ]

module _ {ℓ κ} {A : Type ℓ} (conflict : A → A → Bool) (P : A → Type κ) (p : A → Bool) (f : A → A)
    (same : (a b : A) → p a ≡ true → p b ≡ true → conflict a b ≡ true) where
  All-update_rest :
      (x : A) (ys : List A)
      → p x ≡ true
      → All (λ y. conflict x y ≡ false) ys
      → All P ys
      → All P (update_where p f ys)
  unfolding update_where
  All-update_rest x [] t n h = tt
  All-update_rest x (y ∷ ys) t n h = elim (Bool-cases (p y)) [
    | inl e ↦ absurd (cc (same x y t e, n.0))
    | inr e ↦ rw e (h.0, All-update_rest x ys t n.1 h.1)
  ]

  -- An UPDATE by a unique key changes the one row that a SELECT by that key returns, so a fact of
  -- every row is kept if the new version of that row has it.
  pub All-update_found :
      (xs : List A) {r : A}
      → Distinct conflict xs
      → find p xs ≡ some r
      → All P xs
      → P (f r)
      → All P (update_where p f xs)
  unfolding update_where
  All-update_found [] d e h n = tt
  All-update_found (x ∷ xs) d e h n = elim (Bool-cases (p x)) [
    | inl t ↦ rw t (rw (find-head p x xs t e) at n, All-update_rest x xs t d.0 h.1)
    | inr t ↦ rw t (h.0, All-update_found xs d.1 (find-tail p x xs t e) h.1 n)
  ]
