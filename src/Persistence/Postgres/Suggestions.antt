-- ===== src/Persistence/Postgres/Suggestions.antt =====
-- `PostgresSuggestionStore` (src/persistence/postgres.py) on the table `suggestions`, oldest row first.
use shelf_life_copilot.Prelude.{
  ℕ, ◌+◌, String, ◌≡◌, refl, Bool, true, false, Option, none, some, List, [], ◌∷◌, ◌++◌, DateTime,
  Result, ok, err, value_error, leb, nat_eq, if◌then◌else◌, ◌>>=◌, arith, Bool-cases, inl, inr, ◌⊎◌,
}
use shelf_life_copilot.Prelude.Table.{All}
use shelf_life_copilot.Prelude.Distinct.{Distinct}
use shelf_life_copilot.Models.Suggestion.{Suggestion, validate_suggestion}
use shelf_life_copilot.Persistence.Approvals.{stored}
use shelf_life_copilot.Persistence.SuggestionStore.{Suggestions, is_about, later, newest}
use shelf_life_copilot.Persistence.SuggestionStore as SuggestionStore

-- `save`
unfoldable pub save : Suggestion → Suggestions → ℕ × Suggestions
save s t = (
  t.last_id + 1,
  record {
    rows = t.rows ++ record s { generated_at = stored s.generated_at } ∷ [];
    last_id = t.last_id + 1;
  },
)

abbrev pub last_of : Suggestion → Option Suggestion → Suggestion
last_of s none = s
last_of s (some r) = if leb s.generated_at.instant r.generated_at.instant then r else s

-- ORDER BY generated_at DESC, id DESC LIMIT 1
unfoldable pub last : (Suggestion → Bool) → List Suggestion → Option Suggestion
last p [] = none
last p (s ∷ rows) = let rest = last p rows in if p s then some (last_of s rest) else rest

abbrev pub read_suggestion : Option Suggestion → Result (Option Suggestion)
read_suggestion none = ok none
read_suggestion (some s) = validate_suggestion s >>= λ v. ok (some v)

-- `_latest`
unfoldable pub latest : String → String → Option ℕ → Suggestions → Result (Option Suggestion)
unfolding last
latest customer batch at t = read_suggestion (last (is_about customer batch at) t.rows)

-- `latest_for_batch`
unfoldable pub latest_for_batch : String → String → Suggestions → Result (Option Suggestion)
unfolding latest
latest_for_batch customer batch t = latest customer batch none t

-- `latest_for_batch_at`
unfoldable pub latest_for_batch_at :
    String → String → DateTime → Suggestions → Result (Option Suggestion)
unfolding latest
latest_for_batch_at customer batch at t =
    if at.tz then latest customer batch (some at.instant) t else err value_error

-- no two suggestions of one time
abbrev pub same_time : Suggestion → Suggestion → Bool
same_time a b = nat_eq a.generated_at.instant b.generated_at.instant

found-cases :
    (x : Suggestion) (m : Option Suggestion) (fits : Bool) {s : Suggestion}
    → (if fits then some (last_of x m) else m) ≡ some s
    → (x ≡ s) ⊎ (m ≡ some s)
found-cases x none true h = ground arith
found-cases x none false h = cc
found-cases x (some r) false h = inr h
found-cases x (some r) true h =
    elim (Bool-cases (leb x.generated_at.instant r.generated_at.instant)) [
      | inl e ↦ inr (rw e at h)
      | inr e ↦ inl (some-path (rw e at h))
    ]
  where
    some-path : {a b : Suggestion} → some a ≡ some b → a ≡ b
    some-path q = cc

-- a fact of every row is one of the row that is found
last-All {ℓ} :
    (P : Suggestion → Type ℓ) (p : Suggestion → Bool) (rows : List Suggestion) {s : Suggestion}
    → All P rows
    → last p rows ≡ some s
    → P s
unfolding last
last-All P p [] a h = absurd (cc)
last-All P p (x ∷ rows) a h = elim (found-cases x (last p rows) (p x) h) [
  | inl same ↦ rw (← same) a.0
  | inr rest ↦ last-All P p rows a.1 rest
]

last_of-later :
    (x : Suggestion) (m : Option Suggestion)
    → ((r : Suggestion) → m ≡ some r → same_time x r ≡ false)
    → last_of x m ≡ later x m
last_of-later x none h = refl
last_of-later x (some r) h = ground (arith, h r refl)

last-newest :
    (p : Suggestion → Bool) (rows : List Suggestion)
    → Distinct same_time rows
    → last p rows ≡ newest p rows
unfolding last newest
last-newest p [] d = refl
last-newest p (x ∷ rows) d =
    rw
      (
        ← last-newest p rows d.1,
        last_of-later x (last p rows) (λ r h. last-All (λ y. same_time x y ≡ false) p rows d.0 h),
      )
      refl

-- Where no two rows have one time, both stores find the same latest suggestion of a batch.
pub latest_same :
    (customer batch : String) (at : Option ℕ) (t : Suggestions)
    → Distinct same_time t.rows
    → latest customer batch at t ≡ SuggestionStore.latest customer batch at t
unfolding latest SuggestionStore.latest
latest_same customer batch at t d =
    rw (last-newest (is_about customer batch at) t.rows d)
      (read_same (newest (is_about customer batch at) t.rows))
  where
    read_same : (m : Option Suggestion) → read_suggestion m ≡ SuggestionStore.read m
    read_same none = refl
    read_same (some s) = refl
