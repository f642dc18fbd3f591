-- ===== src/Prelude/Trace.antt =====
-- The answers of a store to a sequence of calls, and stores that cannot be told apart by them.
use mathlib.Core.Path.{◌≡◌, refl}
use mathlib.Core.List.{List, [], ◌∷◌}

module _ {ℓ κ} {C : Type ℓ} {A : Type κ} {S : Type κ} where
  unfoldable pub answers : (C → S → A × S) → List C → S → List A × S
  answers call [] s = ([], s)
  answers call (c ∷ cs) s =
      let (a, s') = call c s in let (rest, end) = answers call cs s' in (a ∷ rest, end)

  -- Two stores that agree on every call, where an invariant holds that one of them keeps, give the same
  -- answers to every sequence of calls.
  pub answers-same {μ} :
      (f g : C → S → A × S) (Inv : S → Type μ)
      → ((c : C) (s : S) → Inv s → f c s ≡ g c s)
      → ((c : C) (s : S) → Inv s → Inv (g c s).1)
      → (cs : List C) (s : S) → Inv s
      → answers f cs s ≡ answers g cs s
  unfolding answers
  answers-same f g Inv agree keep [] s h = refl
  answers-same f g Inv agree keep (c ∷ cs) s h =
      rw (agree c s h, answers-same f g Inv agree keep cs (g c s).1 (keep c s h)) refl
