-- ===== src/Security/Window.antt =====
-- What the sliding window admits (`SlidingWindowRateLimiter` of src/runtime/security.py).
use shelf_life_copilot.Prelude.{
  ℕ, ◌+◌, ◌≤◌, String, ◌≡◌, refl, sym, ◌∙◌, ap, Bool, false, List, [], ◌∷◌, ◌++◌, arith, Bool-cases,
  inl, inr, ltb, leb, ◌==◌, eq_iff, eq_refl, if◌then◌else◌,
}
use shelf_life_copilot.Prelude.Table.{All, All-map, All-append}
use shelf_life_copilot.Security.{Events, no_events, count, prune, allow}

-- The calls of `allow`, a key and a time each, and the times at which one key was let through.
abbrev pub Calls : Type 0
Calls = List (String × ℕ)

abbrev pub logged : String → String × ℕ → Bool × Events → List ℕ → List ℕ
logged key (j, now) (ok?, _) log = if j == key then (if ok? then log ++ now ∷ [] else log) else log

unfoldable pub run : ℕ → ℕ → Calls → Events → Events
run limit window [] events = events
run limit window ((key, now) ∷ calls) events =
    run limit window calls (allow limit window key now events).1

unfoldable pub admitted : ℕ → ℕ → String → Calls → Events → List ℕ → List ℕ
admitted limit window key [] events log = log
admitted limit window key ((j, now) ∷ calls) events log =
    admitted limit window key calls (allow limit window j now events).1
      (logged key (j, now) (allow limit window j now events) log)

-- how many of the times are less than a window before `now`
abbrev pub recent : ℕ → ℕ → List ℕ → ℕ
recent window now [] = 0
recent window now (t ∷ ts) =
    if ltb now (t + window) then recent window now ts + 1 else recent window now ts

-- The clock does not run backwards, from `start` to `end`.
abbrev pub IsOrdered : ℕ → Calls → ℕ → Type 0
IsOrdered start [] end = start ≤ end
IsOrdered start ((_, now) ∷ calls) end = (start ≤ now) × IsOrdered now calls end

-- The deque holds the last of the admitted times; the others are a window old.
pub record Holds (limit window now : ℕ) (log events : List ℕ) : Type 0 where
  pub old : List ℕ
  pub parts : log ≡ old ++ events
  pub expired : All (λ t. t + window ≤ now) old
  pub bounded : count events ≤ limit

expired_later :
    (window now later : ℕ) (old : List ℕ)
    → now ≤ later
    → All (λ t. t + window ≤ now) old
    → All (λ t. t + window ≤ later) old
expired_later window now later old h =
    All-map (λ t. t + window ≤ now) (λ t. t + window ≤ later) (λ t k. omega arith) old

append_assoc : (xs ys zs : List ℕ) → (xs ++ ys) ++ zs ≡ xs ++ (ys ++ zs)
append_assoc [] ys zs = refl
append_assoc (x ∷ xs) ys zs = ap (λ l. x ∷ l) (append_assoc xs ys zs)

-- what pruning takes off the front
pruned :
    (window now : ℕ) (ts : List ℕ)
    → (front : List ℕ) × (ts ≡ front ++ prune window now ts)
      × All (λ t. t + window ≤ now) front
      × (count (prune window now ts) ≤ count ts)
unfolding prune
pruned window now [] = ([], refl, tt, omega arith)
pruned window now (t ∷ ts) = elim (Bool-cases (leb (t + window) now)) [
  | inl e ↦
      (let (front, same, old, less) = pruned window now ts in
        (t ∷ front, rw e (ap (λ l. t ∷ l) same), (ground arith, old), rw e (omega arith)))
  | inr e ↦ ([], rw e refl, tt, rw e (omega arith))
]

Holds-prune :
    (limit window now later : ℕ) (log events : List ℕ)
    → now ≤ later
    → Holds limit window now log events
    → Holds limit window later log (prune window later events)
Holds-prune limit window now later log events le h =
    let (front, same, old, less) = pruned window later events in
    let bounded = h.bounded in
    record {
      old = h.old ++ front;
      parts =
          h.parts
          ∙ ap (λ l. h.old ++ l) same
          ∙ sym (append_assoc h.old front (prune window later events));
      expired =
          All-append (λ t. t + window ≤ later) h.old front
            (expired_later window now later h.old le h.expired) old;
      bounded = omega arith;
    }

Holds-wait :
    (limit window now later : ℕ) (log events : List ℕ)
    → now ≤ later
    → Holds limit window now log events
    → Holds limit window later log events
Holds-wait limit window now later log events le h = record {
  old = h.old;
  parts = h.parts;
  expired = expired_later window now later h.old le h.expired;
  bounded = h.bounded;
}

count-append_one : (ts : List ℕ) (t : ℕ) → count (ts ++ t ∷ []) ≡ count ts + 1
count-append_one [] t = refl
count-append_one (x ∷ ts) t = ap (λ n. n + 1) (count-append_one ts t)

Holds-admit :
    (limit window now : ℕ) (log events : List ℕ)
    → leb limit (count events) ≡ false
    → Holds limit window now log events
    → Holds limit window now (log ++ now ∷ []) (events ++ now ∷ [])
Holds-admit limit window now log events room h = record {
  old = h.old;
  parts = ap (λ l. l ++ now ∷ []) h.parts ∙ append_assoc h.old events (now ∷ []);
  expired = h.expired;
  bounded = rw (count-append_one events now) (ground arith);
}

step-Holds :
    (limit window now later : ℕ) (key j : String) (log : List ℕ) (events : Events)
    → now ≤ later
    → Holds limit window now log (events key)
    → Holds limit window later
        (logged key (j, later) (allow limit window j later events) log)
        ((allow limit window j later events).1 key)
unfolding allow
step-Holds limit window now later key j log events le h = elim (Bool-cases (j == key)) [
  | inl same ↦
      (let kept = Holds-prune limit window now later log (events key) le h in
        rw ((eq_iff j key).0 same, eq_refl key)
          (elim (Bool-cases (leb limit (count (prune window later (events key))))) [
            | inl full ↦ rw (full, eq_refl key) kept
            | inr room ↦
                rw (room, eq_refl key)
                  (Holds-admit limit window later log (prune window later (events key)) room kept)
          ]))
  | inr other ↦
      (let apart : key == j ≡ false = ground (arith, eq_iff j key, eq_iff key j) in
        let waited = Holds-wait limit window now later log (events key) le h in
        elim (Bool-cases (leb limit (count (prune window later (events j))))) [
          | inl full ↦ rw (other, full, apart) waited
          | inr room ↦ rw (other, room, apart) waited
        ])
]

run-Holds :
    (limit window : ℕ) (key : String) (calls : Calls) (now end : ℕ) (log : List ℕ) (events : Events)
    → IsOrdered now calls end
    → Holds limit window now log (events key)
    → Holds limit window end
        (admitted limit window key calls events log)
        (run limit window calls events key)
unfolding run admitted
run-Holds limit window key [] now end log events ordered h =
    Holds-wait limit window now end log (events key) ordered h
run-Holds limit window key ((j, later) ∷ calls) now end log events ordered h =
    run-Holds limit window key calls later end
      (logged key (j, later) (allow limit window j later events) log)
      (allow limit window j later events).1 ordered.1
      (step-Holds limit window now later key j log events ordered.0 h)

recent-parts :
    (window now : ℕ) (old events : List ℕ)
    → All (λ t. t + window ≤ now) old
    → recent window now (old ++ events) ≤ count events
recent-parts window now [] [] h = omega arith
recent-parts window now [] (t ∷ ts) h = ground (arith, recent-parts window now [] ts tt)
recent-parts window now (t ∷ old) events h =
    ground (arith, recent-parts window now old events h.1, h.0)

-- Whatever the calls of all clients, as long as the clock does not run backwards, at no time have
-- more than `limit` requests of one key been let through within the last window.
pub admitted-bounded :
    (limit window : ℕ) (key : String) (calls : Calls) (end : ℕ)
    → IsOrdered 0 calls end
    → recent window end (admitted limit window key calls no_events []) ≤ limit
admitted-bounded limit window key calls end ordered =
    let start : Holds limit window 0 [] [] = record {
      old = [];
      parts = refl;
      expired = tt;
      bounded = omega arith;
    } in
    let held = run-Holds limit window key calls 0 end [] no_events ordered start in
    let most =
      recent-parts window end held.old (run limit window calls no_events key) held.expired in
    let few = held.bounded in rw held.parts (omega arith)
