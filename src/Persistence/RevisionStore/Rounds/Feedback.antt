-- ===== src/Persistence/RevisionStore/Rounds/Feedback.antt =====
-- An operator's text answers the one revision that is open for the operator
-- (src/persistence/revision_store.py, `attach_feedback`).
use shelf_life_copilot.Prelude.{
  ℕ, String, ◌≡◌, refl, inl, inr, true, false, none, some, List, [], ◌∷◌, ok, err, key_error, ◌==◌,
  arith, eq_iff, Bool-cases,
}
use shelf_life_copilot.Prelude.Table.{
  All, find, find-head, find-tail, find-update_where, update_where,
}
use shelf_life_copilot.Prelude.Distinct.{Distinct}
use shelf_life_copilot.Prelude.Keys.{find-by_key}
use shelf_life_copilot.Persistence.RevisionStore.{
  RevisionSession, Sessions, awaits, has_session_id, get, with_feedback, attach_feedback,
}
use shelf_life_copilot.Persistence.RevisionStore.Rounds.{IsSound, sessions_conflict, both_pending}

module _ (operator feedback event_id : String) where
  abbrev answer : ℕ → List RevisionSession → List RevisionSession
  answer id rows = update_where (has_session_id id) (with_feedback feedback event_id) rows

  still_none :
      (id : ℕ) (x : RevisionSession) (rows : List RevisionSession)
      → awaits operator x ≡ true
      → All (λ y. both_pending x y ≡ false) rows
      → find (awaits operator) (answer id rows) ≡ none
  unfolding find update_where
  still_none id x [] a h = refl
  still_none id x (y ∷ rows) a h = ground (
    arith,
    still_none id x rows a h.1,
    eq_iff x.operator_id operator,
    eq_iff y.operator_id operator,
    eq_iff x.operator_id y.operator_id,
  )

  none_left :
      (rows : List RevisionSession) {s : RevisionSession}
      → Distinct both_pending rows
      → find (awaits operator) rows ≡ some s
      → find (awaits operator) (answer s.session_id rows) ≡ none
  unfolding find update_where
  none_left [] d e = cc
  none_left (x ∷ rows) {s} d e = elim (Bool-cases (awaits operator x)) [
    | inl t ↦
        (let same = find-head (awaits operator) x rows t e in
          ground (arith, still_none s.session_id x rows t d.0))
    | inr f ↦ ground (arith, none_left rows d.1 (find-tail (awaits operator) x rows f e))
  ]

-- With a pending session of the operator, a text that is not blank is attached to that session, which
-- is returned as being processed. Then no session of the operator is pending, so that a second text
-- raises KeyError and changes nothing.
-- The sessions satisfy their constraints before, and both texts are not blank.
pub attach_feedback-once :
    (strip : String → String) (operator feedback event_id : String) (t : Sessions)
    {s : RevisionSession}
    → IsSound t
    → (strip feedback == "") ≡ false
    → find (awaits operator) t.rows ≡ some s
    → (t' : Sessions) × (attach_feedback strip operator feedback event_id t
        ≡ (ok (with_feedback feedback event_id s), t'))
      × ((feedback2 event_id2 : String)
          → (strip feedback2 == "") ≡ false
          → attach_feedback strip operator feedback2 event_id2 t' ≡ (err key_error, t'))
unfolding attach_feedback get
attach_feedback-once strip operator feedback event_id t {s} sound given found =
    let t' : Sessions = record t { rows = answer operator feedback event_id s.session_id t.rows } in
    let own =
      find-by_key sessions_conflict (awaits operator) (has_session_id s.session_id) t.rows
        sound.keyed found (ground arith) (λ a h. ground arith) in
    let written =
      find-update_where (has_session_id s.session_id) (has_session_id s.session_id)
        (with_feedback feedback event_id) (λ a. refl) t.rows in
    (
      t',
      rw (given, found, written, own) (ground arith),
      λ feedback2 event_id2 given2.
          rw (given2, none_left operator feedback event_id t.rows sound.one_pending found),
    )
