-- ===== src/Reports/Groups.antt =====
-- The groups of the approved decisions by their action (src/reports/aggregator.py).
use shelf_life_copilot.Prelude.{
  ◌≤◌, ◌≡◌, refl, sym, ◌∙◌, ap, Bool, true, false, Option, none, some, List, [], ◌∷◌, ◌++◌,
  if◌then◌else◌, Bool-cases, inl, inr, arith,
}
use shelf_life_copilot.Prelude.Table.{find, count_where}
use shelf_life_copilot.Prelude.Sorting.{filter}
use shelf_life_copilot.Models.Action.{ActionType, action_eq, action_eq_iff}
use shelf_life_copilot.Models.Decision.{Decision}
use shelf_life_copilot.Reports.{ActionGroup, add_to, by_action}

abbrev pub has_action : ActionType → ActionGroup → Bool
has_action x g = action_eq g.action x

-- the decisions of an action's group
abbrev pub decisions_in : Option ActionGroup → List Decision
decisions_in none = []
decisions_in (some g) = g.decisions

abbrev pub decisions_of : ActionType → List ActionGroup → List Decision
decisions_of x gs = decisions_in (find (λ g. action_eq g.action x) gs)

abbrev only : ActionType → Decision → List Decision
only x d = if action_eq d.action x then d ∷ [] else []

action_self : (a : ActionType) → action_eq a a ≡ true
action_self a = (action_eq_iff a a).1 refl

append_none : (xs : List Decision) → xs ++ [] ≡ xs
append_none [] = refl
append_none (y ∷ ys) = ap (λ zs. y ∷ zs) (append_none ys)

apart : (a b x : ActionType) → action_eq a x ≡ true → action_eq a b ≡ false → action_eq b x ≡ false
apart a b x k e = elim (Bool-cases (action_eq b x)) [
  | inl j ↦
      absurd (
        cc
          (sym e ∙ (action_eq_iff a b).1 ((action_eq_iff a x).0 k ∙ sym ((action_eq_iff b x).0 j))))
  | inr j ↦ j
]

no_other :
    (g : ActionGroup) (d : Decision) (x : ActionType)
    → action_eq g.action x ≡ true
    → action_eq g.action d.action ≡ false
    → g.decisions ++ only x d ≡ g.decisions
no_other g d x k e = rw (apart g.action d.action x k e) (append_none g.decisions)

-- the group of a decision's action gets it at its end, and no other group changes
decisions_of-add_to :
    (x : ActionType) (d : Decision) (gs : List ActionGroup)
    → decisions_of x (add_to d gs) ≡ decisions_of x gs ++ only x d
unfolding add_to find
decisions_of-add_to x d [] = elim (Bool-cases (action_eq d.action x)) [
  | inl e ↦ rw e refl
  | inr e ↦ rw e refl
]
decisions_of-add_to x d (g ∷ gs) = elim (Bool-cases (action_eq g.action d.action)) [
  | inl e ↦
      (let same = (action_eq_iff g.action d.action).0 e in
        elim (Bool-cases (action_eq d.action x)) [
          | inl k ↦ rw (e, same, k) refl
          | inr k ↦ rw (e, same, k) (sym (append_none (decisions_of x gs)))
        ])
  | inr e ↦ elim (Bool-cases (action_eq g.action x)) [
    | inl k ↦ rw (e, k) (sym (no_other g d x k e))
    | inr k ↦ rw (e, k) (decisions_of-add_to x d gs)
  ]
]

-- a decision of another action does not change how many groups an action has
groups-other :
    (x : ActionType) (d : Decision) (gs : List ActionGroup)
    → action_eq d.action x ≡ false
    → count_where (has_action x) (add_to d gs) ≡ count_where (has_action x) gs
unfolding add_to count_where
groups-other x d [] h = rw h refl
groups-other x d (g ∷ gs) h = elim (Bool-cases (action_eq g.action d.action)) [
  | inl e ↦ rw e refl
  | inr e ↦ rw e (omega (arith, groups-other x d gs h))
]

-- no action gets a second group
groups-add_to :
    (x : ActionType) (d : Decision) (gs : List ActionGroup)
    → count_where (has_action x) gs ≤ 1
    → count_where (has_action x) (add_to d gs) ≤ 1
unfolding add_to count_where
groups-add_to x d [] h = elim (Bool-cases (action_eq d.action x)) [
  | inl e ↦ rw e (omega arith)
  | inr e ↦ rw e (omega arith)
]
groups-add_to x d (g ∷ gs) h = elim (Bool-cases (action_eq g.action d.action)) [
  | inl e ↦ rw e h
  | inr e ↦ elim (Bool-cases (action_eq g.action x)) [
    | inl k ↦
        (let none_more = groups-other x d gs (apart g.action d.action x k e) in
          let h2 = rw k at h in rw (e, k) (omega (arith, none_more, h2)))
    | inr k ↦
        (let h2 = rw k at h in
          let more = groups-add_to x d gs (omega (arith, h2)) in rw (e, k) (omega (arith, more)))
  ]
]

filter-cons :
    (p : Decision → Bool) (d : Decision) (ds : List Decision)
    → filter p (d ∷ ds) ≡ (if p d then d ∷ [] else []) ++ filter p ds
unfolding filter
filter-cons p d ds = elim (Bool-cases (p d)) [ inl e ↦ rw e refl | inr e ↦ rw e refl ]

append_append : (xs ys zs : List Decision) → (xs ++ ys) ++ zs ≡ xs ++ (ys ++ zs)
append_append [] ys zs = refl
append_append (x ∷ xs) ys zs = ap (λ ws. x ∷ ws) (append_append xs ys zs)

pub decisions_of-by_action :
    (x : ActionType) (ds : List Decision) (gs : List ActionGroup)
    → decisions_of x (by_action gs ds) ≡ decisions_of x gs ++ filter (λ d. action_eq d.action x) ds
unfolding by_action
decisions_of-by_action x [] gs = unfold filter in sym (append_none (decisions_of x gs))
decisions_of-by_action x (d ∷ ds) gs =
    decisions_of-by_action x ds (add_to d gs)
    ∙ ap (λ ys. ys ++ filter (λ e. action_eq e.action x) ds) (decisions_of-add_to x d gs)
    ∙ append_append (decisions_of x gs) (only x d) (filter (λ e. action_eq e.action x) ds)
    ∙ ap (λ ys. decisions_of x gs ++ ys) (sym (filter-cons (λ e. action_eq e.action x) d ds))

pub groups-by_action :
    (x : ActionType) (ds : List Decision) (gs : List ActionGroup)
    → count_where (has_action x) gs ≤ 1
    → count_where (has_action x) (by_action gs ds) ≤ 1
unfolding by_action
groups-by_action x [] gs h = h
groups-by_action x (d ∷ ds) gs h = groups-by_action x ds (add_to d gs) (groups-add_to x d gs h)
