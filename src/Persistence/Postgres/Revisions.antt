-- ===== src/Persistence/Postgres/Revisions.antt =====
-- `PostgresRevisionStore` (src/persistence/postgres.py) on the table `revision_sessions`.
pub mod Same
use shelf_life_copilot.Prelude.{
  ℕ, ◌+◌, String, Bool, true, false, ◌||◌, Option, none, some, List, [], ◌∷◌, ◌++◌, DateTime,
  Result, ok, err, value_error, key_error, ◌==◌, if◌then◌else◌,
}
use shelf_life_copilot.Prelude.Table.{find, contains, update_where}
use shelf_life_copilot.Persistence.RevisionStore.{
  SessionStatus, pending, processing, completed, failed, RevisionSession, Sessions, awaits, revises,
  has_session_id,
}

-- `_get_on`
abbrev pub session_row : Option RevisionSession → Result RevisionSession
session_row none = err key_error
session_row (some s) = ok s

unfoldable pub get_on : ℕ → Sessions → Result RevisionSession
get_on id t = session_row (find (has_session_id id) t.rows)

-- the row that the INSERT of `open` writes
abbrev pub opened : ℕ → String → String → String → ℕ → RevisionSession
opened id operator customer batch generated = record {
  session_id = id;
  operator_id = operator;
  customer_id = customer;
  batch_id = batch;
  original_generated_at = generated;
  feedback = none;
  feedback_event_id = none;
  revised_generated_at = none;
  status = pending;
}

-- `open`; an INSERT that is refused has taken a number of the sequence
unfoldable pub open_session :
    String → String → String → DateTime → Sessions → Result RevisionSession × Sessions
unfolding get_on
open_session operator customer batch generated t =
    if contains (revises customer batch generated.instant) t.rows
      || contains (awaits operator) t.rows
    then (err value_error, record t { last_id = t.last_id + 1 })
    else (let t' : Sessions = record {
      rows = t.rows ++ opened (t.last_id + 1) operator customer batch generated.instant ∷ [];
      last_id = t.last_id + 1;
    } in
        (get_on (t.last_id + 1) t', t'))

abbrev pub attached :
    String → String → Sessions → Option RevisionSession → Result RevisionSession × Sessions
attached feedback event_id t none = (err key_error, t)
attached feedback event_id t (some s) =
    let t' = record t {
      rows =
          update_where (has_session_id s.session_id)
            (λ z. record z {
              feedback = some feedback;
              feedback_event_id = some event_id;
              status = processing;
            })
            t.rows;
    } in
    (get_on s.session_id t', t')

-- `attach_feedback`; the first argument is `str.strip`
unfoldable pub attach_feedback :
    (String → String) → String → String → String → Sessions → Result RevisionSession × Sessions
attach_feedback strip operator feedback event_id t =
    if strip feedback == ""
    then (err value_error, t)
    else attached feedback event_id t (find (awaits operator) t.rows)

-- `complete`
unfoldable pub complete : ℕ → DateTime → Sessions → Sessions
complete id revised t = record t {
  rows =
      update_where (has_session_id id)
        (λ z. record z { status = completed; revised_generated_at = some revised.instant }) t.rows;
}

-- `fail`
unfoldable pub fail : ℕ → Sessions → Sessions
fail id t = record t {
  rows = update_where (has_session_id id) (λ z. record z { status = failed }) t.rows;
}
