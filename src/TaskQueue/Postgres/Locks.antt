-- ===== src/TaskQueue/Postgres/Locks.antt =====
-- Which task a claim of the PostgreSQL queue takes while other transactions hold locks
-- (src/task_queue.py, FOR UPDATE SKIP LOCKED).
use mathlib.Core.Path.{subst}
use shelf_life_copilot.Prelude.{
  ℕ, ◌≤◌, String, ◌≡◌, refl, inl, inr, Bool, true, false, ◌&&◌, not, Option, none, some, List, [],
  ◌∷◌, arith, Bool-cases, Option-cases,
}
use shelf_life_copilot.Prelude.Table.{All, All-map}
use shelf_life_copilot.TaskQueue.{TaskRow, Queue, QueuedTask, is_ready, earlier, claimed_task}
use shelf_life_copilot.TaskQueue.Selection.{Beats, pick-cases, sorts_before-le, not-sorts_before-le}
use shelf_life_copilot.TaskQueue.Postgres.{
  claim_unlocked, next_unlocked, requeue, is_locked, first_of, handed,
}

abbrev is_free : List String → ℕ → TaskRow → Bool
is_free locked now r = is_ready now r && not (is_locked locked r)

abbrev IsFirst : List String → ℕ → TaskRow → Queue → Type 0
IsFirst locked now r q = All (λ s. is_free locked now s ≡ true → r.created_at ≤ s.created_at) q

first_of_same : (x : TaskRow) (m : Option TaskRow) → first_of x m ≡ earlier x m
first_of_same x none = refl
first_of_same x (some s) = refl

next_unlocked-free :
    (locked : List String) (now : ℕ) (q : Queue) {r : TaskRow}
    → next_unlocked locked now q ≡ some r
    → is_free locked now r ≡ true
unfolding next_unlocked
next_unlocked-free locked now [] h = cc
next_unlocked-free locked now (x ∷ q) h =
    let m = next_unlocked locked now q in
    elim (pick-cases x m (is_free locked now x) (rw (first_of_same x m) at h)) [
      | inl (due, same, _) ↦ rw (← same) due
      | inr (rest, _) ↦ next_unlocked-free locked now q rest
    ]

next_unlocked-none :
    (locked : List String) (now : ℕ) (q : Queue)
    → next_unlocked locked now q ≡ none
    → All (λ s. is_free locked now s ≡ false) q
unfolding next_unlocked
next_unlocked-none locked now [] h = tt
next_unlocked-none locked now (x ∷ q) h = elim (Bool-cases (is_free locked now x)) [
  | inl e ↦ absurd (cc (rw e at h))
  | inr e ↦ (e, next_unlocked-none locked now q (rw e at h))
]

no_rival :
    (locked : List String) (now : ℕ) (r : TaskRow) (q : Queue)
    → All (λ s. is_free locked now s ≡ false) q
    → IsFirst locked now r q
no_rival locked now r q a =
    All-map (λ z. is_free locked now z ≡ false)
      (λ z. is_free locked now z ≡ true → r.created_at ≤ z.created_at)
      (λ z no due. absurd (cc (no, due))) q a

older_row :
    (locked : List String) (now : ℕ) (r s : TaskRow) (q : Queue)
    → r.created_at ≤ s.created_at
    → IsFirst locked now s q
    → IsFirst locked now r q
older_row locked now r s q h a =
    All-map (λ z. is_free locked now z ≡ true → s.created_at ≤ z.created_at)
      (λ z. is_free locked now z ≡ true → r.created_at ≤ z.created_at)
      (λ z k due. omega (arith, k due)) q a

next_unlocked-IsFirst :
    (locked : List String) (now : ℕ) (q : Queue) (r : TaskRow)
    → next_unlocked locked now q ≡ some r
    → IsFirst locked now r q
unfolding next_unlocked
next_unlocked-IsFirst locked now [] r h = tt
next_unlocked-IsFirst locked now (x ∷ q) r h =
    let m = next_unlocked locked now q in
    elim (pick-cases x m (is_free locked now x) (rw (first_of_same x m) at h)) [
      | inl (due, same, best) ↦ (
        λ _. rw same (omega arith),
        elim (Option-cases m) [
          | inl e ↦ no_rival locked now r q (next_unlocked-none locked now q e)
          | inr (s, e) ↦
              older_row locked now r s q
                (rw (← same) (not-sorts_before-le s x (subst (Beats x) e best)))
                (next_unlocked-IsFirst locked now q s e)
        ],
      )
      | inr (rest, first) ↦
          (λ due. sorts_before-le r x (first due), next_unlocked-IsFirst locked now q r rest)
    ]

-- What a claim hands out while others hold locks.
pub record Picked (locked : List String) (now : ℕ) (q : Queue) (task : QueuedTask) : Type 0 where
  pub row : TaskRow
  pub handed_row : task ≡ claimed_task row
  pub ready : is_ready now row ≡ true
  pub unlocked : is_locked locked row ≡ false
  pub oldest :
      All (λ s. is_ready now s && not (is_locked locked s) ≡ true → row.created_at ≤ s.created_at) q

both_true : (a b : Bool) → a && not b ≡ true → (a ≡ true) × (b ≡ false)
both_true a b h = (ground arith, ground arith)

handed-Picked :
    (locked : List String) (now : ℕ) (q : Queue) (m : Option TaskRow) {task : QueuedTask}
    → next_unlocked locked now q ≡ m
    → (handed now q m).0 ≡ some task
    → Picked locked now q task
handed-Picked locked now q none e h = absurd (cc)
handed-Picked locked now q (some r) e h =
    let (due, free) =
      both_true (is_ready now r) (is_locked locked r) (next_unlocked-free locked now q e) in
    record {
      row = r;
      handed_row = cc;
      ready = due;
      unlocked = free;
      oldest = next_unlocked-IsFirst locked now q r e;
    }

-- A task that a claim hands out is due and not locked by another transaction, and no row that is due
-- and not locked was created before it. The rows are those after the claim's own requeue.
pub claim_unlocked-Picked :
    (locked : List String) (now timeout : ℕ) (q : Queue) {task : QueuedTask}
    → (claim_unlocked locked now timeout q).0 ≡ some task
    → Picked locked now (requeue now timeout q) task
unfolding claim_unlocked
claim_unlocked-Picked locked now timeout q h =
    handed-Picked locked now (requeue now timeout q)
      (next_unlocked locked now (requeue now timeout q)) refl h
