-- ===== src/Repository/Erp.antt =====
-- `PagedERPRepository` (src/repository/erp.py). The client is a parameter: its answer to its n-th call,
-- which names a cursor. `Batch.model_validate` of an item is a parameter too, since JSON is not modelled.
pub mod Retries
pub mod Pages
use shelf_life_copilot.Prelude.{
  ℕ, zero, suc, ◌+◌, ◌-◌, ◌^◌, String, Bool, true, false, Option, none, some, List, [], ◌∷◌, ◌++◌,
  Result, ok, err, Error, value_error, ◌==◌, if◌then◌else◌, ◌>>=◌,
}
use shelf_life_copilot.Prelude.Table.{contains}
use shelf_life_copilot.Models.Batch.{Batch}

pub record ErpPage {ℓ} (Item : Type ℓ) : Type ℓ where
  pub items : List Item
  pub next_cursor : Option String

-- a page, `RecoverableERPError` or `PermanentERPError`
pub data Fetched {ℓ} (Item : Type ℓ) : Type ℓ where
  page : ErpPage Item → Fetched Item
  recoverable : Fetched Item
  permanent : Fetched Item

abbrev pub Client {ℓ} : Type ℓ → Type ℓ
Client Item = ℕ → Option String → Fetched Item

-- What the retries end in: the last answer, the number of the next call, and the delays that were slept,
-- in multiples of `retry_delay_seconds`.
pub record Attempts {ℓ} (Item : Type ℓ) : Type ℓ where
  pub answer : Fetched Item
  pub next_call : ℕ
  pub delays : List ℕ

module _ {ℓ} {Item : Type ℓ} (client : Client Item) where
  -- the loop of `_fetch_with_retry` at `attempt`, with so many attempts left after it
  unfoldable pub fetch_from : ℕ → ℕ → Option String → ℕ → Attempts Item
  fetch_from zero attempt cursor n = record {
    answer = client n cursor;
    next_call = n + 1;
    delays = [];
  }
  fetch_from (suc left) attempt cursor n = elim (client n cursor) [
    | page p ↦ record { answer = page p; next_call = n + 1; delays = [] }
    | permanent ↦ record { answer = permanent; next_call = n + 1; delays = [] }
    | recoverable ↦
        (let later = fetch_from left (attempt + 1) cursor (n + 1) in
          record later { delays = 2 ^ attempt ∷ later.delays })
  ]

  -- `_fetch_with_retry`
  unfoldable pub fetch_with_retry : ℕ → Option String → ℕ → Attempts Item
  unfolding fetch_from
  fetch_with_retry max_retries cursor n = fetch_from max_retries 0 cursor n

-- What `load_batches` ends in; the last is the end of the fuel, which the source does not have.
pub data Loaded : Type 0 where
  loaded : List Batch → Loaded
  raised : Error → Loaded
  recoverable_error : Loaded
  permanent_error : Loaded
  unfinished : Loaded

unfoldable pub validate_all {ℓ} :
    {Item : Type ℓ} → (Item → Result Batch) → List Item → Result (List Batch)
validate_all parse [] = ok []
validate_all parse (i ∷ rest) = parse i >>= λ b. validate_all parse rest >>= λ bs. ok (b ∷ bs)

-- `len(ids) != len(set(ids))`
unfoldable pub has_duplicate : List Batch → Bool
has_duplicate [] = false
has_duplicate (b ∷ bs) =
    if contains (λ c. c.batch_id == b.batch_id) bs then true else has_duplicate bs

abbrev pub is_seen : List String → String → Bool
is_seen seen c = contains (λ s. s == c) seen

-- the checks after the loop
unfoldable pub unique_batches : List Batch → Loaded
unfolding has_duplicate
unique_batches batches = if has_duplicate batches then raised value_error else loaded batches

-- the rest of the loop's body after the items were validated; `go` is the next round
abbrev pub next_round :
    (String → List Batch → Loaded)
    → List String
    → List Batch
    → Option String
    → Result (List Batch)
    → Loaded
next_round go seen batches next (err e) = raised e
next_round go seen batches none (ok more) = unique_batches (batches ++ more)
next_round go seen batches (some c) (ok more) = elim (is_seen seen c) [
  | true ↦ permanent_error
  | false ↦ go c (batches ++ more)
]

abbrev pub after_fetch {ℓ} :
    {Item : Type ℓ}
    → (Item → Result Batch)
    → (String → List Batch → Loaded)
    → List String
    → List Batch
    → Fetched Item
    → Loaded
after_fetch parse go seen batches recoverable = recoverable_error
after_fetch parse go seen batches permanent = permanent_error
after_fetch parse go seen batches (page p) =
    next_round go seen batches p.next_cursor (validate_all parse p.items)

module _ {ℓ} {Item : Type ℓ} (client : Client Item) (parse : Item → Result Batch)
    (max_retries : ℕ) where
  -- the loop of `load_batches`
  unfoldable pub load_from : ℕ → Option String → List String → List Batch → ℕ → Loaded
  unfolding validate_all unique_batches fetch_with_retry
  load_from zero cursor seen batches n = unfinished
  load_from (suc fuel) cursor seen batches n =
      let fetched = fetch_with_retry client max_retries cursor n in
      after_fetch parse (λ c bs. load_from fuel (some c) (c ∷ seen) bs fetched.next_call) seen
        batches fetched.answer

  -- `load_batches`
  unfoldable pub load_batches : ℕ → Loaded
  unfolding load_from
  load_batches fuel = load_from fuel none [] [] 0
