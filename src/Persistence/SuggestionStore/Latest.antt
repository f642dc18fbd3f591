-- ===== src/Persistence/SuggestionStore/Latest.antt =====
-- The latest suggestion for a batch (src/persistence/suggestion_store.py).
use shelf_life_copilot.Prelude.{
  ◌≤◌, String, ◌≡◌, refl, sym, ◌⊎◌, inl, inr, Bool, true, false, Option, none, some, List, [], ◌∷◌,
  DateTime, ok, arith, ltb, if◌then◌else◌, Bool-cases,
}
use shelf_life_copilot.Prelude.Table.{All, All-map}
use shelf_life_copilot.Models.Suggestion.{Suggestion, validate_suggestion}
use shelf_life_copilot.Persistence.SuggestionStore.{
  Suggestions, is_about, later, newest, read, latest, latest_for_batch_at,
}

abbrev NotBefore : Suggestion → Option Suggestion → Type 0
NotBefore s none = Unit
NotBefore s (some r) = r.generated_at.instant ≤ s.generated_at.instant

abbrev pub Member : Suggestion → List Suggestion → Type 0
Member s [] = ⊥
Member s (r ∷ rows) = (s ≡ r) ⊎ Member s rows

-- `s` is a row that passes the WHERE clause, and no row that does is newer.
pub record IsNewest (p : Suggestion → Bool) (s : Suggestion) (rows : List Suggestion) : Type 0 where
  pub is_row : Member s rows
  pub fits : p s ≡ true
  pub newest_of :
      All (λ (r : Suggestion). p r ≡ true → r.generated_at.instant ≤ s.generated_at.instant) rows

pick-cases :
    (x : Suggestion) (m : Option Suggestion) (fits : Bool) {s : Suggestion}
    → (if fits then some (later x m) else m) ≡ some s
    → ((fits ≡ true) × (x ≡ s) × NotBefore s m)
      ⊎ ((m ≡ some s) × (fits ≡ true → x.generated_at.instant ≤ s.generated_at.instant))
pick-cases x none true h = ground arith
pick-cases x none false h = cc
pick-cases x (some r) false h = inr (h, λ e. cc)
pick-cases x (some r) true {s} h =
    elim (Bool-cases (ltb x.generated_at.instant r.generated_at.instant)) [
      | inl e ↦ inr (rw e at h, λ _. rw (some-path (rw e at h)) at (ltb-le x r e))
      | inr e ↦ inl (refl, some-path (rw e at h), rw (some-path (rw e at h)) at (not-ltb-le x r e))
    ]
  where
    some-path : {a b : Suggestion} → some a ≡ some b → a ≡ b
    some-path p = cc

    ltb-le :
        (a b : Suggestion)
        → ltb a.generated_at.instant b.generated_at.instant ≡ true
        → a.generated_at.instant ≤ b.generated_at.instant
    ltb-le a b e = ground arith

    not-ltb-le :
        (a b : Suggestion)
        → ltb a.generated_at.instant b.generated_at.instant ≡ false
        → b.generated_at.instant ≤ a.generated_at.instant
    not-ltb-le a b e = ground arith

newest-none :
    (p : Suggestion → Bool) (rows : List Suggestion)
    → newest p rows ≡ none
    → All (λ r. p r ≡ false) rows
unfolding newest
newest-none p [] h = tt
newest-none p (x ∷ rows) h = elim (Bool-cases (p x)) [
  | inl e ↦ absurd (cc (rw e at h))
  | inr e ↦ (e, newest-none p rows (rw e at h))
]

nothing_newer :
    (p : Suggestion → Bool) (s : Suggestion) (rows : List Suggestion) (m : Option Suggestion)
    → newest p rows ≡ m
    → ((r : Suggestion) → m ≡ some r → IsNewest p r rows)
    → NotBefore s m
    → All (λ (r : Suggestion). p r ≡ true → r.generated_at.instant ≤ s.generated_at.instant) rows
nothing_newer p s rows none e known h =
    All-map (λ r. p r ≡ false)
      (λ (r : Suggestion). p r ≡ true → r.generated_at.instant ≤ s.generated_at.instant)
      (λ r no yes. absurd (cc (no, yes))) rows (newest-none p rows e)
nothing_newer p s rows (some r) e known h =
    All-map (λ (a : Suggestion). p a ≡ true → a.generated_at.instant ≤ r.generated_at.instant)
      (λ (a : Suggestion). p a ≡ true → a.generated_at.instant ≤ s.generated_at.instant)
      (λ a le yes. (let le' = le yes in omega arith)) rows (known r refl).newest_of

pub newest-IsNewest :
    (p : Suggestion → Bool) (rows : List Suggestion) {s : Suggestion}
    → newest p rows ≡ some s
    → IsNewest p s rows
unfolding newest
newest-IsNewest p [] h = cc
newest-IsNewest p (x ∷ rows) {s} h = elim (pick-cases x (newest p rows) (p x) h) [
  | inl (fits, same, after) ↦ record {
    is_row = inl (sym same);
    fits = rw same at fits;
    newest_of = (
      λ _. at_most same,
      nothing_newer p s rows (newest p rows) refl (λ r e. newest-IsNewest p rows e) after,
    );
  }
  | inr (found, le) ↦
      (let rest = newest-IsNewest p rows found in
        record { is_row = inr rest.is_row; fits = rest.fits; newest_of = (le, rest.newest_of) })
]
  where
    at_most : {a b : Suggestion} → a ≡ b → a.generated_at.instant ≤ b.generated_at.instant
    at_most e = rw e (omega arith)

abbrev pub IsAnswer : (Suggestion → Bool) → List Suggestion → Option Suggestion → Type 0
IsAnswer p rows none = All (λ r. p r ≡ false) rows
IsAnswer p rows (some s) = IsNewest p s rows

read_row : (m : Option Suggestion) {a : Option Suggestion} → read m ≡ ok a → a ≡ m
unfolding validate_suggestion
read_row none h = ground arith
read_row (some s) h = ground arith

answer :
    (p : Suggestion → Bool) (rows : List Suggestion) (m : Option Suggestion)
    → newest p rows ≡ m
    → IsAnswer p rows m
answer p rows none e = newest-none p rows e
answer p rows (some s) e = newest-IsNewest p rows e

-- When `latest_for_batch_at` returns, its answer is right: none if the batch has no row that is as old
-- as the given time, and otherwise such a row, of this customer and batch, that no other one is
-- newer than.
pub latest_for_batch_at-IsAnswer :
    (customer batch : String) (at : DateTime) (t : Suggestions) {m : Option Suggestion}
    → latest_for_batch_at customer batch at t ≡ ok m
    → IsAnswer (is_about customer batch (some at.instant)) t.rows m
unfolding latest_for_batch_at latest
latest_for_batch_at-IsAnswer customer batch at t {m} h =
    let p = is_about customer batch (some at.instant) in
    elim (Bool-cases at.tz) [
      | inl e ↦ answer p t.rows m (sym (read_row (newest p t.rows) (rw e at h)))
      | inr e ↦ absurd (cc (rw e at h))
    ]
