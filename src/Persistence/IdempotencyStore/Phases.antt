-- ===== src/Persistence/IdempotencyStore/Phases.antt =====
-- The store refines a machine with three phases for each key: free, claimed and answered. What it
-- holds for a key is read by `phase`, which forgets the order of the rows.
use mathlib.Core.Option
use shelf_life_copilot.Prelude.{
  ℕ, String, ◌≡◌, refl, ◌∙◌, ◌⊎◌, inl, inr, Bool, true, false, not, ◌&&◌, Option, none, some, [],
  ◌∷◌, ◌++◌, ok, err, key_error, ◌==◌, nat_eq, if◌then◌else◌, arith, eq_iff, eq_refl, Bool-cases,
  Option-cases,
}
use shelf_life_copilot.Prelude.Table.{
  find, find_sound, find-append_some, find-append_none, find-update_where, contains-find_none,
}
use shelf_life_copilot.Prelude.Distinct.{
  Distinct, Distinct-append, Distinct-update_where, All-contains-false,
}
use shelf_life_copilot.Prelude.Keys.{
  Distinct-delete_where, find-delete_where, find-delete_other, count_where_unique, kept_unless,
  rows_hit,
}
use shelf_life_copilot.Persistence.IdempotencyStore.{
  Status, processing, completed, IdempotencyRecord, Records, has_key, is_active, new_claim, claim,
  finish, complete, release,
}

pub data Phase : Type 0 where
  free : Phase
  claimed : String → Phase
  answered : String → Option ℕ → Option String → Phase

abbrev pub phase_of_row : Status → IdempotencyRecord → Phase
phase_of_row processing r = claimed r.request_kind
phase_of_row completed r = answered r.request_kind r.status_code r.response_json

abbrev pub phase_of : Option IdempotencyRecord → Phase
phase_of none = free
phase_of (some r) = phase_of_row r.status r

unfoldable pub phase : Records → String → Phase
phase t key = phase_of (find (has_key key) t)

-- the primary key
abbrev pub keys_conflict : IdempotencyRecord → IdempotencyRecord → Bool
keys_conflict a b = has_key b.idempotency_key a

abbrev pub IsKeyed : Records → Type 0
IsKeyed t = Distinct keys_conflict t

-- The machine of one key.
abbrev pub claim_phase : String → Phase → Phase
claim_phase kind free = claimed kind
claim_phase kind p = p

abbrev pub complete_phase : ℕ → String → Phase → Phase
complete_phase code response (claimed kind) = answered kind (some code) (some response)
complete_phase code response p = p

abbrev pub release_phase : Phase → Phase
release_phase (claimed kind) = free
release_phase p = p

-- what a key is found by, and what the guarded clauses hit
pub same_key :
    (key : String) (a b : IdempotencyRecord)
    → has_key key a ≡ true
    → has_key key b ≡ true
    → keys_conflict a b ≡ true
same_key key a b s t = ground (
  arith,
  eq_iff a.idempotency_key key,
  eq_iff b.idempotency_key key,
  eq_iff a.idempotency_key b.idempotency_key,
)

pub active_has_key :
    (key : String) (a : IdempotencyRecord) → is_active key a ≡ true → has_key key a ≡ true
active_has_key key a h = ground arith

apart :
    (key j : String)
    → (key == j) ≡ false
    → (a : IdempotencyRecord) → has_key j a ≡ true
    → is_active key a ≡ false
apart key j ne a h =
    ground (arith, eq_iff a.idempotency_key key, eq_iff a.idempotency_key j, eq_iff key j)

pub claim-IsKeyed : (key kind : String) (t : Records) → IsKeyed t → IsKeyed (claim key kind t).1
unfolding claim
claim-IsKeyed key kind t d = elim (Option-cases (find (has_key key) t)) [
  | inl e ↦ elim (Bool-cases (not (key == "") && not (kind == ""))) [
    | inl ok? ↦
        rw (ok?, e)
          (Distinct-append keys_conflict t (new_claim key kind) d
            (All-contains-false (has_key key) t (contains-find_none (has_key key) t e)))
    | inr bad ↦ rw bad d
  ]
  | inr (r, e) ↦ elim (Bool-cases (not (key == "") && not (kind == ""))) [
    | inl ok? ↦ rw (ok?, e) d
    | inr bad ↦ rw bad d
  ]
]

pub complete-IsKeyed :
    (key : String) (code : ℕ) (response : String) (t : Records)
    → IsKeyed t
    → IsKeyed (complete key code response t).1
unfolding complete
complete-IsKeyed key code response t =
    Distinct-update_where keys_conflict (is_active key) (finish code response) (λ a b. refl)
      (λ a b. refl) t

pub release-IsKeyed : (key : String) (t : Records) → IsKeyed t → IsKeyed (release key t)
unfolding release
release-IsKeyed key t = Distinct-delete_where keys_conflict (is_active key) t

find_new :
    (key kind j : String) (t : Records) (m : Option IdempotencyRecord)
    → find (has_key j) t ≡ m
    → (key == j ≡ false) ⊎ (m ≡ none)
    → phase (t ++ new_claim key kind ∷ []) j
      ≡ (if key == j then claim_phase kind (phase_of m) else phase_of m)
unfolding phase find
find_new key kind j t none e u =
    rw (find-append_none (has_key j) t (new_claim key kind ∷ []) e) (ground arith)
find_new key kind j t (some r) e u =
    rw (find-append_some (has_key j) t (new_claim key kind ∷ []) e) (ground arith)

taken :
    (key kind j : String) (t : Records) (r : IdempotencyRecord)
    → find (has_key key) t ≡ some r
    → phase t j ≡ (if key == j then claim_phase kind (phase t j) else phase t j)
unfolding phase
taken key kind j t r e = elim (Bool-cases (key == j)) [
  | inl same ↦ rw (← (eq_iff key j).0 same) (rw e (ground arith))
  | inr other ↦ rw other
]

-- A claim with a key and a kind takes a free key, and leaves a claimed or answered one, and every
-- other key, as it was.
pub phase-claim :
    (key kind j : String) (t : Records)
    → (key == "") ≡ false
    → (kind == "") ≡ false
    → phase (claim key kind t).1 j ≡ (if key == j then claim_phase kind (phase t j) else phase t j)
unfolding claim
phase-claim key kind j t named kinded = elim (Option-cases (find (has_key key) t)) [
  | inl e ↦
      rw (named, kinded, e)
        (find_new key kind j t (find (has_key j) t) refl (elim (Bool-cases (key == j)) [
          | inl same ↦ inr (rw (← (eq_iff key j).0 same) e)
          | inr other ↦ inl other
        ])
          ∙ (unfold phase in refl))
  | inr (r, e) ↦ rw (named, kinded, e) (taken key kind j t r e)
]

found_at :
    (key j : String) (a : IdempotencyRecord) → has_key j a ≡ true → has_key key a ≡ (key == j)
found_at key j a h =
    ground (arith, eq_iff a.idempotency_key j, eq_iff a.idempotency_key key, eq_iff key j)

completed_row :
    (key j : String) (code : ℕ) (response : String) (m : Option IdempotencyRecord)
    → ((a : IdempotencyRecord) → m ≡ some a → has_key j a ≡ true)
    → phase_of (Option.map (λ a. if is_active key a then finish code response a else a) m)
      ≡ (if key == j then complete_phase code response (phase_of m) else phase_of m)
completed_row key j code response none known = ground arith
completed_row key j code response (some a) known = ground (arith, found_at key j a, known a refl)

-- A completion stores the answer of a claimed key, and leaves a free or answered one, and every
-- other key, as it was.
pub phase-complete :
    (key : String) (code : ℕ) (response j : String) (t : Records)
    → phase (complete key code response t).1 j
      ≡ (if key == j then complete_phase code response (phase t j) else phase t j)
unfolding complete phase
phase-complete key code response j t =
    rw (find-update_where (has_key j) (is_active key) (finish code response) (λ a. refl) t)
      (completed_row key j code response (find (has_key j) t) (λ a e. find_sound (has_key j) t e))

released_row :
    (key : String) (m : Option IdempotencyRecord)
    → ((a : IdempotencyRecord) → m ≡ some a → has_key key a ≡ true)
    → phase_of (kept_unless (has_key key) (is_active key) m) ≡ release_phase (phase_of m)
released_row key none known = refl
released_row key (some a) known = ground (arith, known a refl)

-- A release frees a claimed key, and leaves a free or answered one, and every other key, as it was.
-- The keys of the store are unique before.
pub phase-release :
    (key j : String) (t : Records)
    → IsKeyed t
    → phase (release key t) j ≡ (if key == j then release_phase (phase t j) else phase t j)
unfolding release phase
phase-release key j t d = elim (Bool-cases (key == j)) [
  | inl same ↦
      rw
        (
          ← (eq_iff key j).0 same,
          eq_refl key,
          find-delete_where keys_conflict (has_key key) (is_active key) (same_key key)
              (active_has_key key) t d,
        )
        (released_row key (find (has_key key) t) (λ a e. find_sound (has_key key) t e))
  | inr other ↦ rw (other, find-delete_other (has_key j) (is_active key) (apart key j other) t)
]

abbrev pub is_claimed : Phase → Bool
is_claimed (claimed _) = true
is_claimed _ = false

hit_row :
    (key : String) (m : Option IdempotencyRecord)
    → ((a : IdempotencyRecord) → m ≡ some a → has_key key a ≡ true)
    → nat_eq (rows_hit (has_key key) (is_active key) m) 1 ≡ is_claimed (phase_of m)
hit_row key none known = ground arith
hit_row key (some a) known = ground (arith, known a refl)

-- A completion succeeds exactly when its key is claimed, and raises KeyError otherwise.
-- The keys of the store are unique before.
pub complete-answer :
    (key : String) (code : ℕ) (response : String) (t : Records)
    → IsKeyed t
    → (complete key code response t).0 ≡ (if is_claimed (phase t key) then ok tt else err key_error)
unfolding complete phase
complete-answer key code response t d = rw (
  count_where_unique keys_conflict (has_key key) (is_active key) (same_key key) (active_has_key key)
      t d,
  hit_row key (find (has_key key) t) (λ a e. find_sound (has_key key) t e),
)
