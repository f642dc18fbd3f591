-- ===== src/Repository/Erp/Retries.antt =====
-- What the retries of a call give (`_fetch_with_retry` of src/repository/erp.py).
use shelf_life_copilot.Prelude.{
  ℕ, zero, suc, ◌+◌, ◌^◌, ◌≤◌, ◌<◌, String, ◌≡◌, ◌≢◌, refl, sym, ◌∙◌, ap, ◌⊎◌, inl, inr, Option,
  List, [], ◌∷◌, arith,
}
use shelf_life_copilot.Repository.Erp.{
  Fetched, page, recoverable, permanent, Client, ErpPage, Attempts, fetch_from, fetch_with_retry,
}

-- 2 ^ a, 2 ^ (a + 1), ... of so many attempts
abbrev pub doubling : ℕ → ℕ → List ℕ
doubling a zero = []
doubling a (suc i) = 2 ^ a ∷ doubling (a + 1) i

module _ {ℓ} {Item : Type ℓ} (client : Client Item) (cursor : Option String) where
  -- After `retries` recoverable errors the loop ends with the next answer: it is none of those errors,
  -- or the attempts are used up. Before every further call the loop sleeps, each time twice as long.
  pub record IsRetried (left attempt n : ℕ) (a : Attempts Item) : Type ℓ where
    pub retries : ℕ
    pub at_most : retries ≤ left
    pub failing : (j : ℕ) → j < retries → client (n + j) cursor ≡ recoverable
    pub ends : (retries ≡ left) ⊎ (a.answer ≢ recoverable)
    pub answered : a.answer ≡ client (n + retries) cursor
    pub calls : a.next_call ≡ n + retries + 1
    pub slept : a.delays ≡ doubling attempt retries

  at_once :
      (left attempt n : ℕ) (f : Fetched Item)
      → client n cursor ≡ f
      → (0 ≡ left) ⊎ (f ≢ recoverable)
      → IsRetried left attempt n (record { answer = f; next_call = n + 1; delays = [] })
  at_once left attempt n f e stop = record {
    retries = 0;
    at_most = omega arith;
    failing = λ j h. absurd (omega arith);
    ends = stop;
    answered = sym (ap (λ k. client k cursor) (omega arith) ∙ e);
    calls = omega arith;
    slept = refl;
  }

  after_failure :
      (left attempt n : ℕ) (a : Attempts Item)
      → client n cursor ≡ recoverable
      → IsRetried left (attempt + 1) (n + 1) a
      → IsRetried (suc left) attempt n (record a { delays = 2 ^ attempt ∷ a.delays })
  after_failure left attempt n a e r = record {
    retries = suc r.retries;
    at_most = omega (arith, r.at_most);
    failing = still_failing;
    ends = elim r.ends [ inl used ↦ inl (ap suc used) | inr other ↦ inr other ];
    answered = r.answered ∙ ap (λ k. client k cursor) (omega arith);
    calls = omega (arith, r.calls);
    slept = ap (λ (ds : List ℕ). 2 ^ attempt ∷ ds) r.slept;
  }
    where
      still_failing : (j : ℕ) → j < suc r.retries → client (n + j) cursor ≡ recoverable
      still_failing zero h = ap (λ k. client k cursor) (omega arith) ∙ e
      still_failing (suc j) h = ap (λ k. client k cursor) (omega arith) ∙ r.failing j (omega arith)

  page_settles : (p : ErpPage Item) → page p ≢ recoverable
  page_settles p h = cc

  permanent_settles : ◌≢◌ {A = Fetched Item} permanent recoverable
  permanent_settles h = cc

  fetch_from-IsRetried :
      (left attempt n : ℕ) → IsRetried left attempt n (fetch_from client left attempt cursor n)
  unfolding fetch_from
  fetch_from-IsRetried zero attempt n = at_once 0 attempt n (client n cursor) refl (inl refl)
  fetch_from-IsRetried (suc left) attempt n =
      by_answer (client n cursor) refl (fetch_from-IsRetried left (attempt + 1) (n + 1))
    where
      by_answer :
          (f : Fetched Item)
          → client n cursor ≡ f
          → IsRetried left
              (attempt + 1)
              (n + 1)
              (fetch_from client left (attempt + 1) cursor (n + 1))
          → IsRetried (suc left) attempt n (elim f [
            | page p ↦ record { answer = page p; next_call = n + 1; delays = [] }
            | permanent ↦ record { answer = permanent; next_call = n + 1; delays = [] }
            | recoverable ↦
                (let later = fetch_from client left (attempt + 1) cursor (n + 1) in
                  record later { delays = 2 ^ attempt ∷ later.delays })
          ])
      by_answer (page p) e later = at_once (suc left) attempt n (page p) e (inr (page_settles p))
      by_answer permanent e later = at_once (suc left) attempt n permanent e (inr permanent_settles)
      by_answer recoverable e later =
          after_failure left attempt n (fetch_from client left (attempt + 1) cursor (n + 1)) e later

  -- A fetch gives the first answer that is not a recoverable error, among at most one call more than
  -- `max_retries`. If all of those are recoverable errors it gives that error. It sleeps before every
  -- call but the first, for delays that double, and calls no more once it has its answer.
  pub fetch_with_retry-IsRetried :
      (max_retries n : ℕ) → IsRetried max_retries 0 n (fetch_with_retry client max_retries cursor n)
  unfolding fetch_with_retry
  fetch_with_retry-IsRetried max_retries n = fetch_from-IsRetried max_retries 0 n
