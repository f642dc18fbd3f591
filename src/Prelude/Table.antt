-- ===== src/Prelude/Table.antt =====
-- A table of the database as the list of its rows, oldest first, and the statements that the
-- stores run on one: SELECT of one row, UPDATE, DELETE and the row count.
use Prim.Native.Nat.{ℕ, ◌+◌}
use mathlib.Core.Path.{◌≡◌, refl}
use mathlib.Core.Logic.{◌⊎◌, inl, inr}
use mathlib.Core.Bool.{Bool, true, false}
use mathlib.Core.Option.{Option, none, some}
use mathlib.Core.Option
use mathlib.Core.List.{List, [], ◌∷◌, ◌++◌}
use native.Mathlib.Omega.{arith}
use shelf_life_copilot.Prelude.Tests.{if◌then◌else◌, Bool-cases}

abbrev pub All {ℓ κ} : {A : Type ℓ} → (A → Type κ) → List A → Type κ
All P [] = Unit
All P (x ∷ xs) = P x × All P xs

module _ {ℓ} {A : Type ℓ} where
  -- the first row that passes the test
  unfoldable pub find : (A → Bool) → List A → Option A
  find p [] = none
  find p (x ∷ xs) = if p x then some x else find p xs

  unfoldable pub contains : (A → Bool) → List A → Bool
  contains p [] = false
  contains p (x ∷ xs) = if p x then true else contains p xs

  unfoldable pub update_where : (A → Bool) → (A → A) → List A → List A
  update_where p f [] = []
  update_where p f (x ∷ xs) = (if p x then f x else x) ∷ update_where p f xs

  unfoldable pub delete_where : (A → Bool) → List A → List A
  delete_where p [] = []
  delete_where p (x ∷ xs) = let rest = delete_where p xs in if p x then rest else x ∷ rest

  unfoldable pub count_where : (A → Bool) → List A → ℕ
  count_where p [] = 0
  count_where p (x ∷ xs) = (if p x then 1 else 0) + count_where p xs

module _ {ℓ} {A : Type ℓ} (p : A → Bool) where
  -- the row that a SELECT returns is the first one, or the SELECT goes on
  pub find-cons :
      (y : A) (ys : List A) {x : A}
      → find p (y ∷ ys) ≡ some x
      → ((p y ≡ true) × (y ≡ x)) ⊎ (find p ys ≡ some x)
  unfolding find
  find-cons y ys e = ground arith

pub All-map {ℓ κ} :
    {A : Type ℓ} (P Q : A → Type κ) → ((a : A) → P a → Q a) → (xs : List A) → All P xs → All Q xs
All-map P Q f [] h = tt
All-map P Q f (x ∷ xs) h = (f x h.0, All-map P Q f xs h.1)

module _ {ℓ κ} {A : Type ℓ} (P : A → Type κ) where
  pub All-append : (xs ys : List A) → All P xs → All P ys → All P (xs ++ ys)
  All-append [] ys hx hy = hy
  All-append (x ∷ xs) ys hx hy = (hx.0, All-append xs ys hx.1 hy)

  pub All-update_where :
      (p : A → Bool) (f : A → A)
      → ((a : A) → p a ≡ true → P a → P (f a))
      → (xs : List A) → All P xs
      → All P (update_where p f xs)
  unfolding update_where
  All-update_where p f keep [] h = tt
  All-update_where p f keep (x ∷ xs) h = elim (Bool-cases (p x)) [
    | inl e ↦ rw e (keep x e h.0, All-update_where p f keep xs h.1)
    | inr e ↦ rw e (h.0, All-update_where p f keep xs h.1)
  ]

  pub All-delete_where : (p : A → Bool) (xs : List A) → All P xs → All P (delete_where p xs)
  unfolding delete_where
  All-delete_where p [] h = tt
  All-delete_where p (x ∷ xs) h = elim (Bool-cases (p x)) [
    | inl e ↦ rw e (All-delete_where p xs h.1)
    | inr e ↦ rw e (h.0, All-delete_where p xs h.1)
  ]

  -- a fact of every row is one of the row that a SELECT returns
  pub All-find : (p : A → Bool) (xs : List A) {x : A} → All P xs → find p xs ≡ some x → P x
  unfolding find
  All-find p [] h e = cc
  All-find p (y ∷ ys) h e = elim (find-cons p y ys e) [
    | inl (t, same) ↦ rw same at h.0
    | inr later ↦ All-find p ys h.1 later
  ]

module _ {ℓ} {A : Type ℓ} (p : A → Bool) where
  pub find-head : (y : A) (ys : List A) {x : A} → p y ≡ true → find p (y ∷ ys) ≡ some x → x ≡ y
  unfolding find
  find-head y ys t e = ground arith

  pub find-tail :
      (y : A) (ys : List A) {x : A} → p y ≡ false → find p (y ∷ ys) ≡ some x → find p ys ≡ some x
  unfolding find
  find-tail y ys t e = ground arith

  pub find_sound : (xs : List A) {x : A} → find p xs ≡ some x → p x ≡ true
  unfolding find
  find_sound [] e = cc
  find_sound (y ∷ ys) e = elim (find-cons p y ys e) [
    | inl (t, same) ↦ rw (← same) t
    | inr later ↦ find_sound ys later
  ]

  pub find-append_some : (xs ys : List A) {x : A} → find p xs ≡ some x → find p (xs ++ ys) ≡ some x
  unfolding find
  find-append_some [] ys e = cc
  find-append_some (z ∷ zs) ys e = elim (Bool-cases (p z)) [
    | inl t ↦ rw t (rw t at e)
    | inr t ↦ rw t (find-append_some zs ys (rw t at e))
  ]

  pub find-append_none : (xs ys : List A) → find p xs ≡ none → find p (xs ++ ys) ≡ find p ys
  unfolding find
  find-append_none [] ys e = refl
  find-append_none (z ∷ zs) ys e = elim (Bool-cases (p z)) [
    | inl t ↦ cc (rw t at e)
    | inr t ↦ rw t (find-append_none zs ys (rw t at e))
  ]

  pub contains-find : (xs : List A) {x : A} → find p xs ≡ some x → contains p xs ≡ true
  unfolding find contains
  contains-find [] e = cc
  contains-find (z ∷ zs) e = elim (Bool-cases (p z)) [
    | inl t ↦ rw t
    | inr t ↦ rw t (contains-find zs (rw t at e))
  ]

  pub contains-find_none : (xs : List A) → find p xs ≡ none → contains p xs ≡ false
  unfolding find contains
  contains-find_none [] e = refl
  contains-find_none (z ∷ zs) e = elim (Bool-cases (p z)) [
    | inl t ↦ cc (rw t at e)
    | inr t ↦ rw t (contains-find_none zs (rw t at e))
  ]

  pub find-contains-false : (xs : List A) → contains p xs ≡ false → find p xs ≡ none
  unfolding find contains
  find-contains-false [] e = refl
  find-contains-false (z ∷ zs) e = elim (Bool-cases (p z)) [
    | inl t ↦ absurd (cc (rw t at e))
    | inr t ↦ rw t (find-contains-false zs (rw t at e))
  ]

  -- An UPDATE that leaves the searched columns alone is seen by a SELECT at the row it returns.
  pub find-update_where :
      (q : A → Bool) (f : A → A)
      → ((a : A) → p (f a) ≡ p a)
      → (xs : List A)
      → find p (update_where q f xs) ≡ Option.map (λ a. if q a then f a else a) (find p xs)
  unfolding find update_where
  find-update_where q f same [] = refl
  find-update_where q f same (x ∷ xs) = ground (arith, same x, find-update_where q f same xs)
