-- ===== src/Persistence/Postgres/Revisions/Same.antt =====
-- Both revision stores (src/persistence/postgres.py and src/persistence/revision_store.py) keep the same
-- sessions.
use shelf_life_copilot.Prelude.{
  ℕ, ◌+◌, ◌≤◌, String, ◌≡◌, refl, ap, Option, none, some, List, [], ◌∷◌, DateTime, Result, arith,
  inl, inr, Bool-cases, ◌||◌,
}
use shelf_life_copilot.Prelude.Table.{All-map, find, contains, update_where}
use shelf_life_copilot.Persistence.RevisionStore.{
  RevisionSession, Sessions, awaits, revises, has_session_id, added, new_session, with_feedback,
}
use shelf_life_copilot.Persistence.RevisionStore as RevisionStore
use shelf_life_copilot.Persistence.RevisionStore.Rounds.{
  IsSound, Call, opening, attaching, completing, failing,
}
use shelf_life_copilot.Persistence.RevisionStore.Rounds.Once.{apply-IsSound}
use shelf_life_copilot.Persistence.RevisionStore.Rounds as Rounds
use shelf_life_copilot.Persistence.Postgres.Revisions.{
  open_session, attach_feedback, attached, complete, fail, get_on, session_row,
}

session_row_same : (m : Option RevisionSession) → session_row m ≡ RevisionStore.required m
session_row_same none = refl
session_row_same (some s) = refl

get_same : (id : ℕ) (t : Sessions) → get_on id t ≡ RevisionStore.get id t
unfolding get_on RevisionStore.get
get_same id t = session_row_same (find (RevisionStore.has_session_id id) t.rows)

-- `open` answers what the SQLite store answers and leaves the same rows; only a refused call differs,
-- in that it has taken a number of the sequence.
pub open_same :
    (operator customer batch : String) (generated : DateTime) (t : Sessions)
    → ((open_session operator customer batch generated t).0
        ≡ (RevisionStore.open_session operator customer batch generated t).0)
      × ((open_session operator customer batch generated t).1.rows
          ≡ (RevisionStore.open_session operator customer batch generated t).1.rows)
unfolding open_session RevisionStore.open_session
open_same operator customer batch generated t =
    elim (Bool-cases (
      contains (revises customer batch generated.instant) t.rows
      || contains (awaits operator) t.rows)) [
        | inl e ↦ rw e (refl, refl)
        | inr e ↦ rw e (
          get_same (t.last_id + 1)
              (added t (new_session (t.last_id + 1) operator customer batch generated.instant)),
          refl,
        )
      ]

abbrev paired : Result RevisionSession → Sessions → Result RevisionSession × Sessions
paired r t = (r, t)

attached_same :
    (feedback event_id : String) (t : Sessions) (m : Option RevisionSession)
    → attached feedback event_id t m ≡ RevisionStore.attach_to feedback event_id t m
attached_same feedback event_id t none = refl
attached_same feedback event_id t (some s) =
    let t' : Sessions = record t {
      rows = update_where (has_session_id s.session_id) (with_feedback feedback event_id) t.rows;
    } in
    ap (λ r. paired r t') (get_same s.session_id t')

-- `attach_feedback` answers what the SQLite store answers and leaves the same rows.
pub attach_feedback_same :
    (strip : String → String) (operator feedback event_id : String) (t : Sessions)
    → attach_feedback strip operator feedback event_id t
      ≡ RevisionStore.attach_feedback strip operator feedback event_id t
unfolding attach_feedback RevisionStore.attach_feedback
attach_feedback_same strip operator feedback event_id t =
    rw (attached_same feedback event_id t (find (awaits operator) t.rows)) refl

module _ (strip : String → String) where
  unfoldable pub apply : Call → Sessions → Sessions
  apply (opening operator customer batch generated) t =
      (open_session operator customer batch generated t).1
  apply (attaching operator feedback event_id) t =
      (attach_feedback strip operator feedback event_id t).1
  apply (completing id revised) t = complete id revised t
  apply (failing id) t = fail id t

  unfoldable pub run : List Call → Sessions → Sessions
  unfolding apply
  run [] t = t
  run (c ∷ cs) t = run cs (apply c t)

taken_number : (t : Sessions) → IsSound t → IsSound (record t { last_id = t.last_id + 1 })
taken_number t s = record {
  keyed = s.keyed;
  one_pending = s.one_pending;
  ids_bounded =
      All-map (λ z. z.session_id ≤ t.last_id) (λ z. z.session_id ≤ t.last_id + 1)
        (λ z h. omega arith) t.rows s.ids_bounded;
}

open-IsSound :
    (operator customer batch : String) (generated : DateTime) (t : Sessions)
    → IsSound t
    → IsSound (RevisionStore.open_session operator customer batch generated t).1
    → IsSound (open_session operator customer batch generated t).1
unfolding open_session RevisionStore.open_session
open-IsSound operator customer batch generated t s s' =
    elim (Bool-cases (
      contains (revises customer batch generated.instant) t.rows
      || contains (awaits operator) t.rows)) [
        | inl e ↦ rw e (taken_number t s)
        | inr e ↦ rw e (rw e at s')
      ]

-- Every call of the PostgreSQL store keeps the constraints of revision sessions.
pub apply_postgres-IsSound :
    (strip : String → String) (c : Call) (t : Sessions) → IsSound t → IsSound (apply strip c t)
unfolding apply complete fail Rounds.apply RevisionStore.complete RevisionStore.fail
apply_postgres-IsSound strip (opening operator customer batch generated) t s =
    open-IsSound operator customer batch generated t s
      (apply-IsSound strip (opening operator customer batch generated) t s)
apply_postgres-IsSound strip (attaching operator feedback event_id) t s =
    rw (apply, attach_feedback_same strip operator feedback event_id t)
      (apply-IsSound strip (attaching operator feedback event_id) t s)
apply_postgres-IsSound strip (completing id revised) t s =
    apply-IsSound strip (completing id revised) t s
apply_postgres-IsSound strip (failing id) t s = apply-IsSound strip (failing id) t s
