-- ===== src/Persistence/Postgres/Requests/Same.antt =====
-- Both backends (src/persistence/postgres.py and src/persistence/idempotency_store.py) answer claims of
-- an idempotency key alike.
use shelf_life_copilot.Prelude.{
  ℕ, String, ◌≡◌, refl, ap, inl, inr, Option, List, Result, ok, arith, Option-cases,
}
use shelf_life_copilot.Prelude.Table.{find, contains-find, contains-find_none}
use shelf_life_copilot.Prelude.Keys.{count_where-one, update_where-none}
use shelf_life_copilot.Prelude.Trace.{answers, answers-same}
use shelf_life_copilot.Persistence.IdempotencyStore.{
  IdempotencyRecord, Records, has_key, is_active, finish,
}
use shelf_life_copilot.Persistence.IdempotencyStore as IdempotencyStore
use shelf_life_copilot.Persistence.IdempotencyStore.Phases.{
  IsKeyed, keys_conflict, same_key, active_has_key,
}
use shelf_life_copilot.Persistence.IdempotencyStore.Claims.{Call, claiming, completing, releasing}
use shelf_life_copilot.Persistence.IdempotencyStore.Claims as Claims
use shelf_life_copilot.Persistence.Postgres.Requests.{claim, complete, release}

-- A claim gives what the SQLite store gives.
pub claim_same :
    (key kind : String) (t : Records) → claim key kind t ≡ IdempotencyStore.claim key kind t
unfolding claim IdempotencyStore.claim
claim_same key kind t = elim (Option-cases (find (has_key key) t)) [
  | inl e ↦ rw (e, contains-find_none (has_key key) t e) (ground arith)
  | inr (r, e) ↦ rw (e, contains-find (has_key key) t e) (ground arith)
]

complete_same :
    (key : String) (code : ℕ) (response : String) (t : Records)
    → IsKeyed t
    → complete key code response t ≡ IdempotencyStore.complete key code response t
unfolding complete IdempotencyStore.complete
complete_same key code response t d =
    elim (count_where-one keys_conflict (has_key key) (is_active key) (same_key key)
      (active_has_key key) t d) [
        | inl e ↦ rw (e, update_where-none (is_active key) (finish code response) t e) refl
        | inr e ↦ rw e refl
      ]

release_same : (key : String) (t : Records) → release key t ≡ IdempotencyStore.release key t
unfolding release IdempotencyStore.release
release_same key t = refl

-- What a call answers.
pub data Answer : Type 0 where
  told : Result (Option IdempotencyRecord) → Answer
  reported : Result (Unit {0}) → Answer

abbrev tagged {ℓ} : {A : Type ℓ} → (A → Answer) → A × Records → Answer × Records
tagged f (a, t) = (f a, t)

-- one call of either store
unfoldable pub sqlite_call : Call → Records → Answer × Records
sqlite_call (claiming key kind) t = tagged told (IdempotencyStore.claim key kind t)
sqlite_call (completing key code response) t =
    tagged reported (IdempotencyStore.complete key code response t)
sqlite_call (releasing key) t = (reported (ok tt), IdempotencyStore.release key t)

unfoldable pub postgres_call : Call → Records → Answer × Records
postgres_call (claiming key kind) t = tagged told (claim key kind t)
postgres_call (completing key code response) t = tagged reported (complete key code response t)
postgres_call (releasing key) t = (reported (ok tt), release key t)

call_same : (c : Call) (t : Records) → IsKeyed t → postgres_call c t ≡ sqlite_call c t
unfolding postgres_call sqlite_call
call_same (claiming key kind) t d = ap (tagged told) (claim_same key kind t)
call_same (completing key code response) t d =
    ap (tagged reported) (complete_same key code response t d)
call_same (releasing key) t d = ap (λ t'. (reported (ok tt), t')) (release_same key t)

sqlite_call-apply : (c : Call) (t : Records) → (sqlite_call c t).1 ≡ Claims.apply c t
unfolding sqlite_call Claims.apply
sqlite_call-apply (claiming key kind) t = refl
sqlite_call-apply (completing key code response) t = refl
sqlite_call-apply (releasing key) t = refl

-- The two stores answer every sequence of claims, completions and releases alike, call by call, and
-- end in the same records. The keys are unique at the start.
pub requests_same :
    (cs : List Call) (t : Records)
    → IsKeyed t
    → answers postgres_call cs t ≡ answers sqlite_call cs t
requests_same =
    answers-same postgres_call sqlite_call IsKeyed call_same
      (λ c t d. rw (sqlite_call-apply c t) (Claims.apply-IsKeyed c t d))
