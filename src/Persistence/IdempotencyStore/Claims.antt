-- ===== src/Persistence/IdempotencyStore/Claims.antt =====
-- What the phases of `IdempotencyStore` give over any sequence of calls: one claim at a time, and an
-- answer that is replayed for ever.
use shelf_life_copilot.Prelude.{
  ℕ, String, ◌≡◌, inl, inr, Bool, true, false, Option, none, some, List, [], ◌∷◌, Result, ok, err,
  value_error, ◌==◌, arith, Bool-cases, Option-cases, eq_refl, ap, ◌⊎◌,
}
use shelf_life_copilot.Prelude.Table.{All, find}
use shelf_life_copilot.Persistence.IdempotencyStore.{
  processing, completed, IdempotencyRecord, Records, has_key, claim, complete, release,
}
use shelf_life_copilot.Persistence.IdempotencyStore.Phases.{
  free, claimed, answered, phase, IsKeyed, phase-claim, phase-complete, phase-release,
  claim-IsKeyed, complete-IsKeyed, release-IsKeyed,
}

-- One call of the store, by anyone.
pub data Call : Type 0 where
  claiming : (key kind : String) → Call
  completing : (key : String) (code : ℕ) (response : String) → Call
  releasing : (key : String) → Call

unfoldable pub apply : Call → Records → Records
apply (claiming key kind) t = (claim key kind t).1
apply (completing key code response) t = (complete key code response t).1
apply (releasing key) t = release key t

unfoldable pub run : List Call → Records → Records
unfolding apply
run [] t = t
run (c ∷ cs) t = run cs (apply c t)

-- the calls that end a claim of the key
abbrev pub ends : String → Call → Bool
ends key (claiming _ _) = false
ends key (completing j _ _) = j == key
ends key (releasing j) = j == key

pub apply-IsKeyed : (c : Call) (t : Records) → IsKeyed t → IsKeyed (apply c t)
unfolding apply
apply-IsKeyed (claiming key kind) t d = claim-IsKeyed key kind t d
apply-IsKeyed (completing key code response) t d = complete-IsKeyed key code response t d
apply-IsKeyed (releasing key) t d = release-IsKeyed key t d

refused_claim :
    (key kind : String) (t : Records)
    → (key == "" ≡ true) ⊎ (kind == "" ≡ true)
    → claim key kind t ≡ (err value_error, t)
unfolding claim
refused_claim key kind t h = ground arith

claim_keeps_answer :
    (j kind key : String) (t : Records) {k : String} {c : Option ℕ} {r : Option String}
    → phase t key ≡ answered k c r
    → phase (claim j kind t).1 key ≡ answered k c r
claim_keeps_answer j kind key t h = elim (Bool-cases (j == "")) [
  | inl e ↦ rw (refused_claim j kind t (inl e)) h
  | inr named ↦ elim (Bool-cases (kind == "")) [
    | inl e ↦ rw (refused_claim j kind t (inr e)) h
    | inr kinded ↦ ground (arith, phase-claim j kind key t named kinded)
  ]
]

apply_keeps_answer :
    (call : Call) (key : String) (t : Records) {k : String} {c : Option ℕ} {r : Option String}
    → IsKeyed t
    → phase t key ≡ answered k c r
    → phase (apply call t) key ≡ answered k c r
unfolding apply
apply_keeps_answer (claiming j kind) key t d h = claim_keeps_answer j kind key t h
apply_keeps_answer (completing j code response) key t d h =
    ground (arith, phase-complete j code response key t)
apply_keeps_answer (releasing j) key t d h = ground (arith, phase-release j key t d)

-- An answered key stays answered, with the same answer, whatever calls follow.
pub run_keeps_answer :
    (calls : List Call) (key : String) (t : Records) {k : String} {c : Option ℕ} {r : Option String}
    → IsKeyed t
    → phase t key ≡ answered k c r
    → phase (run calls t) key ≡ answered k c r
unfolding run
run_keeps_answer [] key t d h = h
run_keeps_answer (call ∷ calls) key t d h =
    run_keeps_answer calls key (apply call t) (apply-IsKeyed call t d)
      (apply_keeps_answer call key t d h)

replay :
    (key kind : String) (t : Records) {k : String} {c : Option ℕ} {r : Option String}
    → (key == "") ≡ false
    → (kind == "") ≡ false
    → phase t key ≡ answered k c r
    → (row : IdempotencyRecord) × (claim key kind t ≡ (ok (some row), t))
      × (row.status ≡ completed)
      × (row.request_kind ≡ k)
      × (row.status_code ≡ c)
      × (row.response_json ≡ r)
unfolding claim phase
replay key kind t n m h = elim (Option-cases (find (has_key key) t)) [
  | inl e ↦ absurd (ground arith)
  | inr (row, e) ↦ (row, rw (n, m, e), ground arith, ground arith, ground arith, ground arith)
]

-- Once a request is answered, every later claim of its key, after any calls of the store in between
-- and under any kind, gets the stored answer back and changes nothing.
-- The keys of the store are unique before, and neither the key nor the kind is empty.
pub answer_replayed :
    (calls : List Call) (key kind : String) (t : Records) {k : String} {c : Option ℕ}
    {r : Option String}
    → IsKeyed t
    → (key == "") ≡ false
    → (kind == "") ≡ false
    → phase t key ≡ answered k c r
    → (row : IdempotencyRecord) × (claim key kind (run calls t) ≡ (ok (some row), run calls t))
      × (row.status ≡ completed)
      × (row.request_kind ≡ k)
      × (row.status_code ≡ c)
      × (row.response_json ≡ r)
answer_replayed calls key kind t d n m h =
    replay key kind (run calls t) n m (run_keeps_answer calls key t d h)

claim_keeps_claim :
    (j kind key : String) (t : Records) {k : String}
    → phase t key ≡ claimed k
    → phase (claim j kind t).1 key ≡ claimed k
claim_keeps_claim j kind key t h = elim (Bool-cases (j == "")) [
  | inl e ↦ rw (refused_claim j kind t (inl e)) h
  | inr named ↦ elim (Bool-cases (kind == "")) [
    | inl e ↦ rw (refused_claim j kind t (inr e)) h
    | inr kinded ↦ ground (arith, phase-claim j kind key t named kinded)
  ]
]

apply_keeps_claim :
    (call : Call) (key : String) (t : Records) {k : String}
    → IsKeyed t
    → ends key call ≡ false
    → phase t key ≡ claimed k
    → phase (apply call t) key ≡ claimed k
unfolding apply
apply_keeps_claim (claiming j kind) key t d e h = claim_keeps_claim j kind key t h
apply_keeps_claim (completing j code response) key t d e h =
    ground (arith, phase-complete j code response key t)
apply_keeps_claim (releasing j) key t d e h = ground (arith, phase-release j key t d)

run_keeps_claim :
    (calls : List Call) (key : String) (t : Records) {k : String}
    → IsKeyed t
    → All (λ c. ends key c ≡ false) calls
    → phase t key ≡ claimed k
    → phase (run calls t) key ≡ claimed k
unfolding run
run_keeps_claim [] key t d e h = h
run_keeps_claim (call ∷ calls) key t d e h =
    run_keeps_claim calls key (apply call t) (apply-IsKeyed call t d) e.1
      (apply_keeps_claim call key t d e.0 h)

second_claim :
    (key kind : String) (t : Records) {k : String}
    → (key == "") ≡ false
    → (kind == "") ≡ false
    → phase t key ≡ claimed k
    → (row : IdempotencyRecord) × (claim key kind t ≡ (ok (some row), t))
      × (row.status ≡ processing)
unfolding claim phase
second_claim key kind t n m h = elim (Option-cases (find (has_key key) t)) [
  | inl e ↦ absurd (ground arith)
  | inr (row, e) ↦ (row, rw (n, m, e), ground arith)
]

first_claim :
    (key kind : String) (t : Records) {t' : Records}
    → claim key kind t ≡ (ok none, t')
    → (key == "" ≡ false) × (kind == "" ≡ false) × (phase t key ≡ free)
unfolding claim phase
first_claim key kind t h = (ground arith, ground arith, ground arith)

-- Between the call that claims a key and the call that completes or releases it, no other claim of
-- the key gets through: each is told that the request is in progress, and changes nothing.
-- The keys of the store are unique before, and the later claim names a kind.
pub claim_excludes :
    (key kind : String) (t : Records) {t' : Records}
    → IsKeyed t
    → claim key kind t ≡ (ok none, t')
    → (calls : List Call) (kind2 : String) → (kind2 == "") ≡ false
    → All (λ c. ends key c ≡ false) calls
    → (row : IdempotencyRecord) × (claim key kind2 (run calls t') ≡ (ok (some row), run calls t'))
      × (row.status ≡ processing)
claim_excludes key kind t {t'} d won calls kind2 m e =
    let (named, kinded, was_free) = first_claim key kind t won in
    let after : phase t' key ≡ claimed kind =
      ground (arith, phase-claim key kind key t named kinded, eq_refl key, won) in
    let keyed : IsKeyed t' =
      rw (ap (λ (x : Result (Option IdempotencyRecord) × Records). x.1) won) at
        (claim-IsKeyed key kind t d) in
    second_claim key kind2 (run calls t') named m (run_keeps_claim calls key t' keyed e after)
