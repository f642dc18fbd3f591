-- ===== src/Persistence/RevisionStore/Rounds.antt =====
-- The constraints of `revision_sessions`, and the one round of revision that they give
-- (src/persistence/revision_store.py).
pub mod Once
pub mod Feedback
use shelf_life_copilot.Prelude.{
  ℕ, ◌+◌, ◌≤◌, String, ◌≡◌, ◌≢◌, refl, sym, ◌∙◌, ap, ◌⊎◌, inl, inr, Bool, true, false, ◌&&◌, ◌||◌,
  Option, none, some, List, [], ◌∷◌, ◌++◌, DateTime, Result, ok, err, value_error, key_error, ◌==◌,
  nat_eq, if◌then◌else◌, arith, eq_iff, eq_refl, Bool-cases, Option-cases,
}
use shelf_life_copilot.Prelude.Table.{
  All, All-append, All-map, All-find, All-update_where, find, find_sound, find-append_none,
  find-update_where, contains, update_where,
}
use shelf_life_copilot.Prelude.Distinct.{
  Distinct, Distinct-append, Distinct-update_where, Distinct-update_fewer, All-contains-false,
  contains-update_where, contains-append_true, contains-append_last,
}
use shelf_life_copilot.Persistence.RevisionStore.{
  SessionStatus, pending, processing, is_pending, RevisionSession, Sessions, awaits, revises,
  has_session_id, get, new_session, added, open_session, with_feedback, attach_to, attach_feedback,
  completed_session, complete, failed_session, fail,
}

-- the primary key and UNIQUE(customer_id, batch_id, original_generated_at)
abbrev pub sessions_conflict : RevisionSession → RevisionSession → Bool
sessions_conflict a b =
    has_session_id b.session_id a || revises b.customer_id b.batch_id b.original_generated_at a

-- the unique index over the pending sessions of an operator
abbrev pub both_pending : RevisionSession → RevisionSession → Bool
both_pending a b = awaits b.operator_id a && is_pending b.status

pub record IsSound (t : Sessions) : Type 0 where
  pub keyed : Distinct sessions_conflict t.rows
  pub one_pending : Distinct both_pending t.rows
  pub ids_bounded : All (λ s. s.session_id ≤ t.last_id) t.rows

-- One call of the store, by anyone.
pub data Call : Type 0 where
  opening : (operator customer batch : String) → DateTime → Call
  attaching : (operator feedback event_id : String) → Call
  completing : ℕ → DateTime → Call
  failing : ℕ → Call

module _ (strip : String → String) where
  unfoldable pub apply : Call → Sessions → Sessions
  apply (opening operator customer batch generated) t =
      (open_session operator customer batch generated t).1
  apply (attaching operator feedback event_id) t =
      (attach_feedback strip operator feedback event_id t).1
  apply (completing id revised) t = complete id revised t
  apply (failing id) t = fail id t

  unfoldable pub run : List Call → Sessions → Sessions
  unfolding apply
  run [] t = t
  run (c ∷ cs) t = run cs (apply c t)

-- A change that leaves the unique columns alone and makes nothing pending.
pub record Settles (f : RevisionSession → RevisionSession) : Type 0 where
  id : (s : RevisionSession) → (f s).session_id ≡ s.session_id
  operator : (s : RevisionSession) → (f s).operator_id ≡ s.operator_id
  customer : (s : RevisionSession) → (f s).customer_id ≡ s.customer_id
  batch : (s : RevisionSession) → (f s).batch_id ≡ s.batch_id
  generated : (s : RevisionSession) → (f s).original_generated_at ≡ s.original_generated_at
  settled : (s : RevisionSession) → is_pending (f s).status ≡ false

module _ (p : RevisionSession → Bool) (f : RevisionSession → RevisionSession) (k : Settles f) where
  pub update-IsSound :
      (t : Sessions) → IsSound t → IsSound (record t { rows = update_where p f t.rows })
  update-IsSound t s = record {
    keyed =
        Distinct-update_where sessions_conflict p f
          (λ a b. simp (k.id b, k.customer b, k.batch b, k.generated b))
          (λ a b. simp (k.id a, k.customer a, k.batch a, k.generated a)) t.rows s.keyed;
    one_pending =
        Distinct-update_fewer both_pending p f (λ a b h. ground (arith, k.settled b))
          (λ a b h. ground (arith, k.settled a)) t.rows s.one_pending;
    ids_bounded =
        All-update_where (λ z. z.session_id ≤ t.last_id) p f (λ a _ h. rw (k.id a) h) t.rows
          s.ids_bounded;
  }

  pub update-revises :
      (customer batch : String) (generated : ℕ) (rows : List RevisionSession)
      → contains (revises customer batch generated) (update_where p f rows)
        ≡ contains (revises customer batch generated) rows
  update-revises customer batch generated =
      contains-update_where (revises customer batch generated) p f
        (λ a. simp (k.customer a, k.batch a, k.generated a))

pub Settles-feedback : (feedback event_id : String) → Settles (with_feedback feedback event_id)
Settles-feedback feedback event_id = record {
  id = λ s. refl;
  operator = λ s. refl;
  customer = λ s. refl;
  batch = λ s. refl;
  generated = λ s. refl;
  settled = λ s. refl;
}

pub Settles-completed : (at : ℕ) → Settles (completed_session at)
Settles-completed at = record {
  id = λ s. refl;
  operator = λ s. refl;
  customer = λ s. refl;
  batch = λ s. refl;
  generated = λ s. refl;
  settled = λ s. refl;
}

pub Settles-failed : Settles failed_session
Settles-failed = record {
  id = λ s. refl;
  operator = λ s. refl;
  customer = λ s. refl;
  batch = λ s. refl;
  generated = λ s. refl;
  settled = λ s. refl;
}
