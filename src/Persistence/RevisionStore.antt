-- ===== src/Persistence/RevisionStore.antt =====
-- `RevisionStore` (src/persistence/revision_store.py) on the table `revision_sessions`. The column
-- `created_at`, which no query reads, is left out.
pub mod Rounds
use shelf_life_copilot.Prelude.{
  ℕ, ◌+◌, String, Bool, true, false, ◌&&◌, ◌||◌, Option, none, some, List, [], ◌∷◌, ◌++◌, DateTime,
  Result, ok, err, value_error, key_error, ◌==◌, nat_eq, if◌then◌else◌, ◌>>=◌,
}
use shelf_life_copilot.Prelude.Table.{find, contains, update_where}

pub data SessionStatus : Type 0 where
  pending processing completed failed : SessionStatus

abbrev pub is_pending : SessionStatus → Bool
is_pending pending = true
is_pending _ = false

pub record RevisionSession : Type 0 where
  pub session_id : ℕ
  pub operator_id : String
  pub customer_id : String
  pub batch_id : String
  pub original_generated_at : ℕ
  pub feedback : Option String
  pub feedback_event_id : Option String
  pub revised_generated_at : Option ℕ
  pub status : SessionStatus

pub record Sessions : Type 0 where
  pub rows : List RevisionSession
  -- the AUTOINCREMENT sequence
  pub last_id : ℕ

abbrev pub no_sessions : Sessions
no_sessions = record { rows = []; last_id = 0 }

-- WHERE operator_id = ? AND status = 'pending'
abbrev pub awaits : String → RevisionSession → Bool
awaits operator s = s.operator_id == operator && is_pending s.status

-- UNIQUE(customer_id, batch_id, original_generated_at)
abbrev pub revises : String → String → ℕ → RevisionSession → Bool
revises customer batch generated s =
    s.customer_id == customer && (s.batch_id == batch && nat_eq s.original_generated_at generated)

abbrev pub has_session_id : ℕ → RevisionSession → Bool
has_session_id id s = nat_eq s.session_id id

-- `_get`
abbrev pub required : Option RevisionSession → Result RevisionSession
required none = err key_error
required (some s) = ok s

unfoldable pub get : ℕ → Sessions → Result RevisionSession
get id t = required (find (has_session_id id) t.rows)

abbrev pub new_session : ℕ → String → String → String → ℕ → RevisionSession
new_session id operator customer batch generated = record {
  session_id = id;
  operator_id = operator;
  customer_id = customer;
  batch_id = batch;
  original_generated_at = generated;
  feedback = none;
  feedback_event_id = none;
  revised_generated_at = none;
  status = pending;
}

abbrev pub added : Sessions → RevisionSession → Sessions
added t s = record { rows = t.rows ++ s ∷ []; last_id = t.last_id + 1 }

-- `open`, with the two unique constraints
unfoldable pub open_session :
    String → String → String → DateTime → Sessions → Result RevisionSession × Sessions
unfolding get
open_session operator customer batch generated t =
    if contains (revises customer batch generated.instant) t.rows
      || contains (awaits operator) t.rows
    then (err value_error, t)
    else (let t' =
          added t (new_session (t.last_id + 1) operator customer batch generated.instant) in
        (get (t.last_id + 1) t', t'))

abbrev pub with_feedback : String → String → RevisionSession → RevisionSession
with_feedback feedback event_id s = record s {
  feedback = some feedback;
  feedback_event_id = some event_id;
  status = processing;
}

abbrev pub attach_to :
    String → String → Sessions → Option RevisionSession → Result RevisionSession × Sessions
attach_to feedback event_id t none = (err key_error, t)
attach_to feedback event_id t (some s) =
    let t' = record t {
      rows = update_where (has_session_id s.session_id) (with_feedback feedback event_id) t.rows;
    } in
    (get s.session_id t', t')

-- `attach_feedback`; the first argument is `str.strip`
unfoldable pub attach_feedback :
    (String → String) → String → String → String → Sessions → Result RevisionSession × Sessions
attach_feedback strip operator feedback event_id t =
    if strip feedback == ""
    then (err value_error, t)
    else attach_to feedback event_id t (find (awaits operator) t.rows)

abbrev pub completed_session : ℕ → RevisionSession → RevisionSession
completed_session revised s = record s { status = completed; revised_generated_at = some revised }

-- `complete`
unfoldable pub complete : ℕ → DateTime → Sessions → Sessions
complete id revised t = record t {
  rows = update_where (has_session_id id) (completed_session revised.instant) t.rows;
}

abbrev pub failed_session : RevisionSession → RevisionSession
failed_session s = record s { status = failed }

-- `fail`
unfoldable pub fail : ℕ → Sessions → Sessions
fail id t = record t { rows = update_where (has_session_id id) failed_session t.rows }
