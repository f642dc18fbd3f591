-- ===== src/TaskQueue/Selection.antt =====
-- Which row the SELECT of `claim` (src/task_queue.py) returns.
use mathlib.Core.Path.{subst}
use shelf_life_copilot.Prelude.{
  ℕ, ◌≤◌, String, ◌≡◌, refl, ◌⊎◌, inl, inr, Bool, true, false, ◌||◌, Option, none, some, [], ◌∷◌,
  if◌then◌else◌, arith, eq_iff, eq_refl, Bool-cases, Option-cases,
}
use shelf_life_copilot.Prelude.Table.{All, All-map, find}
use shelf_life_copilot.Prelude.Distinct.{Distinct}
use shelf_life_copilot.TaskQueue.{
  TaskRow, Queue, has_task_id, has_dedupe_key, is_ready, sorts_before, earlier, next_ready,
}

-- the primary key and the unique column of `task_queue`
abbrev pub tasks_conflict : TaskRow → TaskRow → Bool
tasks_conflict a b = has_task_id b.task_id a || has_dedupe_key b.dedupe_key a

abbrev pub IsKeyed : Queue → Type 0
IsKeyed q = Distinct tasks_conflict q

pub same_task :
    (id : String) (a b : TaskRow)
    → has_task_id id a ≡ true
    → has_task_id id b ≡ true
    → tasks_conflict a b ≡ true
same_task id a b s t =
    ground (arith, eq_iff a.task_id id, eq_iff b.task_id id, eq_iff a.task_id b.task_id)

-- `r` is due and was created no later than any other row that is due.
abbrev pub IsOldest : ℕ → TaskRow → Queue → Type 0
IsOldest now r q = All (λ s. is_ready now s ≡ true → r.created_at ≤ s.created_at) q

abbrev pub Beats : TaskRow → Option TaskRow → Type 0
Beats x none = Unit
Beats x (some s) = sorts_before s x ≡ false

-- The row that is returned is the first one, which the rest does not beat, or one of the rest, which
-- beats the first one if that is due.
pub pick-cases :
    (x : TaskRow) (m : Option TaskRow) (due : Bool) {r : TaskRow}
    → (if due then some (earlier x m) else m) ≡ some r
    → ((due ≡ true) × (x ≡ r) × Beats x m) ⊎ ((m ≡ some r) × (due ≡ true → sorts_before r x ≡ true))
pick-cases x none true h = ground arith
pick-cases x none false h = cc
pick-cases x (some s) false h = inr (h, λ e. cc)
pick-cases x (some s) true {r} h = elim (Bool-cases (sorts_before s x)) [
  | inl e ↦ inr (rw e at h, λ _. rw (some-path (rw e at h)) at e)
  | inr e ↦ inl (refl, some-path (rw e at h), e)
]
  where
    some-path : {a b : TaskRow} → some a ≡ some b → a ≡ b
    some-path p = cc

pub sorts_before-le : (s r : TaskRow) → sorts_before s r ≡ true → s.created_at ≤ r.created_at
sorts_before-le s r h = ground arith

pub not-sorts_before-le : (s r : TaskRow) → sorts_before s r ≡ false → r.created_at ≤ s.created_at
not-sorts_before-le s r h = ground arith

pub next_ready-is_ready :
    (now : ℕ) (q : Queue) {r : TaskRow} → next_ready now q ≡ some r → is_ready now r ≡ true
unfolding next_ready
next_ready-is_ready now [] h = cc
next_ready-is_ready now (x ∷ q) h = elim (pick-cases x (next_ready now q) (is_ready now x) h) [
  | inl (due, same, _) ↦ rw (← same) due
  | inr (rest, _) ↦ next_ready-is_ready now q rest
]

-- a fact of every row is one of the row that is returned
pub next_ready-All {ℓ} :
    (P : TaskRow → Type ℓ) (now : ℕ) (q : Queue) {r : TaskRow}
    → All P q
    → next_ready now q ≡ some r
    → P r
unfolding next_ready
next_ready-All P now [] a h = absurd (cc)
next_ready-All P now (x ∷ q) a h = elim (pick-cases x (next_ready now q) (is_ready now x) h) [
  | inl (due, same, _) ↦ rw (← same) a.0
  | inr (rest, _) ↦ next_ready-All P now q a.1 rest
]

pub next_ready-found :
    (now : ℕ) (q : Queue) {r : TaskRow}
    → IsKeyed q
    → next_ready now q ≡ some r
    → find (has_task_id r.task_id) q ≡ some r
unfolding next_ready find
next_ready-found now [] d h = cc
next_ready-found now (x ∷ q) {r} d h = elim (pick-cases x (next_ready now q) (is_ready now x) h) [
  | inl (due, same, _) ↦ rw (← same) (rw (eq_refl x.task_id))
  | inr (rest, _) ↦
      (let apart = next_ready-All (λ y. tasks_conflict x y ≡ false) now q d.0 rest in
        rw (no-id apart) (next_ready-found now q d.1 rest))
]
  where
    no-id : tasks_conflict x r ≡ false → has_task_id r.task_id x ≡ false
    no-id e = ground arith

older :
    (now : ℕ) (r s : TaskRow) (q : Queue)
    → r.created_at ≤ s.created_at
    → IsOldest now s q
    → IsOldest now r q
older now r s q h a =
    All-map (λ z. is_ready now z ≡ true → s.created_at ≤ z.created_at)
      (λ z. is_ready now z ≡ true → r.created_at ≤ z.created_at) (λ z k due. omega (arith, k due)) q
      a

none_due :
    (now : ℕ) (r : TaskRow) (q : Queue) → All (λ s. is_ready now s ≡ false) q → IsOldest now r q
none_due now r q a =
    All-map (λ z. is_ready now z ≡ false) (λ z. is_ready now z ≡ true → r.created_at ≤ z.created_at)
      (λ z no due. absurd (cc (no, due))) q a

pub next_ready-none :
    (now : ℕ) (q : Queue) → next_ready now q ≡ none → All (λ s. is_ready now s ≡ false) q
unfolding next_ready
next_ready-none now [] h = tt
next_ready-none now (x ∷ q) h = elim (Bool-cases (is_ready now x)) [
  | inl e ↦ absurd (cc (rw e at h))
  | inr e ↦ (e, next_ready-none now q (rw e at h))
]

-- No row that is due was created before the one that is returned.
pub next_ready-IsOldest :
    (now : ℕ) (q : Queue) (r : TaskRow) → next_ready now q ≡ some r → IsOldest now r q
unfolding next_ready
next_ready-IsOldest now [] r h = tt
next_ready-IsOldest now (x ∷ q) r h = elim (pick-cases x (next_ready now q) (is_ready now x) h) [
  | inl (due, same, best) ↦ (
    λ _. rw same (omega arith),
    elim (Option-cases (next_ready now q)) [
      | inl e ↦ none_due now r q (next_ready-none now q e)
      | inr (s, e) ↦
          older now r s q (rw (← same) (not-sorts_before-le s x (subst (Beats x) e best)))
            (next_ready-IsOldest now q s e)
    ],
  )
  | inr (rest, first) ↦ (λ due. sorts_before-le r x (first due), next_ready-IsOldest now q r rest)
]
