-- ===== src/Persistence/IdempotencyStore.antt =====
-- `IdempotencyStore` (src/persistence/idempotency_store.py) on the table `idempotency_records`. The
-- columns `created_at` and `completed_at`, which no query reads, are left out.
pub mod Phases
pub mod Claims
use shelf_life_copilot.Prelude.{
  ℕ, String, Bool, true, false, not, ◌&&◌, Option, none, some, List, [], ◌∷◌, ◌++◌, Result, ok, err,
  value_error, key_error, ◌==◌, nat_eq, if◌then◌else◌,
}
use shelf_life_copilot.Prelude.Table.{find, update_where, delete_where, count_where}

pub data Status : Type 0 where
  processing completed : Status

abbrev pub is_processing : Status → Bool
is_processing processing = true
is_processing completed = false

pub record IdempotencyRecord : Type 0 where
  pub idempotency_key : String
  pub request_kind : String
  pub status : Status
  pub status_code : Option ℕ
  pub response_json : Option String

abbrev pub Records : Type 0
Records = List IdempotencyRecord

-- WHERE idempotency_key = ?
abbrev pub has_key : String → IdempotencyRecord → Bool
has_key key r = r.idempotency_key == key

-- WHERE idempotency_key = ? AND status = 'processing'
abbrev pub is_active : String → IdempotencyRecord → Bool
is_active key r = has_key key r && is_processing r.status

abbrev pub new_claim : String → String → IdempotencyRecord
new_claim key kind = record {
  idempotency_key = key;
  request_kind = kind;
  status = processing;
  status_code = none;
  response_json = none;
}

-- the INSERT, and the SELECT after a conflict with the primary key
abbrev pub insert_or_read :
    String → String → Records → Option IdempotencyRecord → Option IdempotencyRecord × Records
insert_or_read key kind t none = (none, t ++ new_claim key kind ∷ [])
insert_or_read key kind t (some r) = (some r, t)

-- `claim`
unfoldable pub claim : String → String → Records → Result (Option IdempotencyRecord) × Records
claim key kind t =
    if not (key == "") && not (kind == "")
    then (let (r, t') = insert_or_read key kind t (find (has_key key) t) in (ok r, t'))
    else (err value_error, t)

abbrev pub finish : ℕ → String → IdempotencyRecord → IdempotencyRecord
finish code response r = record r {
  status = completed;
  status_code = some code;
  response_json = some response;
}

-- `complete`; the UPDATE stays written when the row count is refused
unfoldable pub complete : String → ℕ → String → Records → Result (Unit {0}) × Records
complete key code response t = (
  if nat_eq (count_where (is_active key) t) 1 then ok tt else err key_error,
  update_where (is_active key) (finish code response) t,
)

-- `release`
unfoldable pub release : String → Records → Records
release key t = delete_where (is_active key) t
