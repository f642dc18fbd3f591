-- ===== src/Repository/Erp/Pages.antt =====
-- The pages of a load (`load_batches` of src/repository/erp.py): it ends, and what it loads is unique.
use shelf_life_copilot.Prelude.{
  ℕ, zero, suc, ◌+◌, ◌≤◌, ◌<◌, String, ◌≡◌, ◌≢◌, refl, sym, ◌∙◌, inl, inr, Bool, true, false, not,
  Option, none, some, List, [], ◌∷◌, ◌++◌, Result, ok, err, arith, ◌==◌, eq_iff, eq_refl, length,
  Bool-cases,
}
use shelf_life_copilot.Prelude.Table.{contains, count_where}
use shelf_life_copilot.Prelude.Distinct.{Distinct, All-contains-false}
use shelf_life_copilot.Models.Batch.{Batch}
use shelf_life_copilot.Repository.Erp.Retries.{fetch_with_retry-IsRetried}
use shelf_life_copilot.Repository.Erp.{
  Fetched, page, recoverable, permanent, Client, ErpPage, fetch_with_retry, Loaded, loaded,
  unfinished, next_round, after_fetch, validate_all, has_duplicate, is_seen, unique_batches,
  load_from, load_batches,
}

abbrev pub same_batch : Batch → Batch → Bool
same_batch a b = b.batch_id == a.batch_id

has_duplicate-Distinct : (bs : List Batch) → has_duplicate bs ≡ false → Distinct same_batch bs
unfolding has_duplicate
has_duplicate-Distinct [] h = tt
has_duplicate-Distinct (b ∷ bs) h =
    elim (Bool-cases (contains (λ c. c.batch_id == b.batch_id) bs)) [
      | inl e ↦ absurd (cc (rw e at h))
      | inr e ↦ (
        All-contains-false (λ c. c.batch_id == b.batch_id) bs e,
        has_duplicate-Distinct bs (rw e at h),
      )
    ]

-- the cursors that are still to come
abbrev left_over : List String → List String → ℕ
left_over seen cursors = count_where (λ c. not (is_seen seen c)) cursors

seen_more :
    (seen : List String) (c : String) (cursors : List String)
    → left_over (c ∷ seen) cursors ≤ left_over seen cursors
unfolding count_where contains
seen_more seen c [] = omega arith
seen_more seen c (x ∷ xs) = ground (arith, seen_more seen c xs)

-- a new cursor of the list leaves one cursor less
one_less :
    (seen : List String) (c : String) (cursors : List String)
    → contains (λ x. x == c) cursors ≡ true
    → is_seen seen c ≡ false
    → left_over (c ∷ seen) cursors < left_over seen cursors
unfolding count_where contains
one_less seen c [] h new = absurd (cc)
one_less seen c (x ∷ xs) h new = elim (Bool-cases (x == c)) [
  | inl e ↦
      (let more = seen_more seen c xs in
        rw ((eq_iff x c).0 e) (rw (eq_refl c, new) (omega (arith, more))))
  | inr e ↦ ground (arith, one_less seen c xs (rw e at h) new)
]

-- Every cursor that the client ever gives is one of a list.
abbrev pub GivesOnly {ℓ} : {Item : Type ℓ} → List String → Client Item → Type ℓ
GivesOnly cursors client =
    (n : ℕ) (cursor : Option String) (p : ErpPage _) (c : String)
    → client n cursor ≡ page p
    → p.next_cursor ≡ some c
    → contains (λ x. x == c) cursors ≡ true

module _ {ℓ} {Item : Type ℓ} (client : Client Item) (parse : Item → Result Batch) (max_retries : ℕ)
    (cursors : List String) (gives : GivesOnly cursors client) where
  unique_batches-finished : (bs : List Batch) → unique_batches bs ≢ unfinished
  unfolding unique_batches
  unique_batches-finished bs h = ground arith

  next_round-finished :
      (go : String → List Batch → Loaded) (seen : List String) (batches : List Batch)
      (next : Option String) (m : Result (List Batch))
      → ((c : String) (bs : List Batch)
          → next ≡ some c
          → is_seen seen c ≡ false
          → go c bs ≢ unfinished)
      → next_round go seen batches next m ≢ unfinished
  next_round-finished go seen batches next (err e) h k = cc
  next_round-finished go seen batches none (ok more) h k =
      unique_batches-finished (batches ++ more) k
  next_round-finished go seen batches (some c) (ok more) h k = elim (Bool-cases (is_seen seen c)) [
    | inl e ↦ cc (rw (next_round, e) at k)
    | inr e ↦ h c (batches ++ more) refl e (rw (next_round, e) at k)
  ]

  after_fetch-finished :
      (go : String → List Batch → Loaded) (seen : List String) (batches : List Batch)
      (f : Fetched Item)
      → ((c : String) (bs : List Batch) (p : ErpPage Item)
          → f ≡ page p
          → p.next_cursor ≡ some c
          → is_seen seen c ≡ false
          → go c bs ≢ unfinished)
      → after_fetch parse go seen batches f ≢ unfinished
  after_fetch-finished go seen batches recoverable h k = cc
  after_fetch-finished go seen batches permanent h k = cc
  after_fetch-finished go seen batches (page p) h k =
      next_round-finished go seen batches p.next_cursor (validate_all parse p.items)
        (λ c bs e new. h c bs p refl e new) k

  load_from-finished :
      (fuel : ℕ) (cursor : Option String) (seen : List String) (batches : List Batch) (n : ℕ)
      → left_over seen cursors < fuel
      → load_from client parse max_retries fuel cursor seen batches n ≢ unfinished
  unfolding load_from
  load_from-finished zero cursor seen batches n h k = omega arith
  load_from-finished (suc fuel) cursor seen batches n h k =
      let fetched = fetch_with_retry client max_retries cursor n in
      let r = fetch_with_retry-IsRetried client cursor max_retries n in
      after_fetch-finished
        (λ c bs. load_from client parse max_retries fuel (some c) (c ∷ seen) bs fetched.next_call)
        seen batches fetched.answer
        (λ c bs p e next new. load_from-finished fuel (some c) (c ∷ seen) bs fetched.next_call (
          let given = gives (n + r.retries) cursor p c (sym r.answered ∙ e) next in
          omega (arith, one_less seen c cursors given new)))
        k

  count_le : (p : String → Bool) (xs : List String) → count_where p xs ≤ length xs
  unfolding count_where
  count_le p [] = omega arith
  count_le p (x ∷ xs) = ground (arith, count_le p xs)

-- The load ends, whatever the client answers, the retries included, if every cursor that it ever
-- gives is one of a list: with one round more than that list has cursors the loop is done.
pub load_batches-finished {ℓ} :
    {Item : Type ℓ} (client : Client Item) (parse : Item → Result Batch) (max_retries : ℕ)
    (cursors : List String)
    → GivesOnly cursors client
    → load_batches client parse max_retries (suc (length cursors)) ≢ unfinished
unfolding load_batches
load_batches-finished client parse max_retries cursors gives =
    load_from-finished client parse max_retries cursors gives (suc (length cursors)) none [] [] 0 (
      omega
        (arith, count_le client parse max_retries cursors gives (λ c. not (is_seen [] c)) cursors))

unique_batches-Distinct :
    (all : List Batch) {bs : List Batch} → unique_batches all ≡ loaded bs → Distinct same_batch bs
unfolding unique_batches
unique_batches-Distinct all {bs} h = elim (Bool-cases (has_duplicate all)) [
  | inl e ↦ absurd (cc (rw e at h))
  | inr e ↦ rw (same (rw e at h)) at (has_duplicate-Distinct all e)
]
  where
    same : {xs ys : List Batch} → loaded xs ≡ loaded ys → xs ≡ ys
    same k = cc

module _ {ℓ} {Item : Type ℓ} (client : Client Item) (parse : Item → Result Batch)
    (max_retries : ℕ) where
  next_round-Distinct :
      (go : String → List Batch → Loaded) (seen : List String) (batches : List Batch)
      (next : Option String) (m : Result (List Batch)) {bs : List Batch}
      → ((c : String) (more : List Batch) → go c more ≡ loaded bs → Distinct same_batch bs)
      → next_round go seen batches next m ≡ loaded bs
      → Distinct same_batch bs
  next_round-Distinct go seen batches next (err e) h k = absurd (cc)
  next_round-Distinct go seen batches none (ok more) h k =
      unique_batches-Distinct (batches ++ more) k
  next_round-Distinct go seen batches (some c) (ok more) h k = elim (Bool-cases (is_seen seen c)) [
    | inl e ↦ absurd (cc (rw (next_round, e) at k))
    | inr e ↦ h c (batches ++ more) (rw (next_round, e) at k)
  ]

  after_fetch-Distinct :
      (go : String → List Batch → Loaded) (seen : List String) (batches : List Batch)
      (f : Fetched Item) {bs : List Batch}
      → ((c : String) (more : List Batch) → go c more ≡ loaded bs → Distinct same_batch bs)
      → after_fetch parse go seen batches f ≡ loaded bs
      → Distinct same_batch bs
  after_fetch-Distinct go seen batches recoverable h k = absurd (cc)
  after_fetch-Distinct go seen batches permanent h k = absurd (cc)
  after_fetch-Distinct go seen batches (page p) h k =
      next_round-Distinct go seen batches p.next_cursor (validate_all parse p.items) h k

  load_from-Distinct :
      (fuel : ℕ) (cursor : Option String) (seen : List String) (batches : List Batch) (n : ℕ)
      {bs : List Batch}
      → load_from client parse max_retries fuel cursor seen batches n ≡ loaded bs
      → Distinct same_batch bs
  unfolding load_from
  load_from-Distinct zero cursor seen batches n k = absurd (cc)
  load_from-Distinct (suc fuel) cursor seen batches n k =
      let fetched = fetch_with_retry client max_retries cursor n in
      after_fetch-Distinct
        (λ c bs. load_from client parse max_retries fuel (some c) (c ∷ seen) bs fetched.next_call)
        seen batches fetched.answer
        (λ c more. load_from-Distinct fuel (some c) (c ∷ seen) more fetched.next_call) k

  -- No two batches that a load returns have one id, however the pages repeat them.
  pub load_batches-Distinct :
      (fuel : ℕ) {bs : List Batch}
      → load_batches client parse max_retries fuel ≡ loaded bs
      → Distinct same_batch bs
  unfolding load_batches
  load_batches-Distinct fuel h = load_from-Distinct fuel none [] [] 0 h
