-- ===== src/Persistence/Postgres/Requests.antt =====
-- `PostgresIdempotencyStore` (src/persistence/postgres.py) on the table `idempotency_records`.
pub mod Same
use shelf_life_copilot.Prelude.{
  ℕ, String, Bool, true, false, not, ◌&&◌, ◌||◌, Option, none, some, List, [], ◌∷◌, ◌++◌, Result,
  ok, err, value_error, key_error, assertion_error, ◌==◌, nat_eq, if◌then◌else◌,
}
use shelf_life_copilot.Prelude.Table.{find, contains, update_where, delete_where, count_where}
use shelf_life_copilot.Persistence.IdempotencyStore.{
  Status, processing, completed, IdempotencyRecord, Records, has_key, is_active,
}

-- the SELECT after a conflict, with the `assert`
abbrev pub read_record : Option IdempotencyRecord → Result (Option IdempotencyRecord)
read_record none = err assertion_error
read_record (some r) = ok (some r)

-- `claim`
unfoldable pub claim : String → String → Records → Result (Option IdempotencyRecord) × Records
claim key kind t =
    if key == "" || kind == ""
    then (err value_error, t)
    else (if contains (has_key key) t then (read_record (find (has_key key) t), t) else (
      ok none,
      t
          ++ record {
            idempotency_key = key;
            request_kind = kind;
            status = processing;
            status_code = none;
            response_json = none;
          }
            ∷ [],
    ))

-- `complete`, which rolls back when it has not hit one row
unfoldable pub complete : String → ℕ → String → Records → Result (Unit {0}) × Records
complete key code response t =
    if nat_eq (count_where (is_active key) t) 1
    then (
      ok tt,
      update_where (is_active key)
          (λ r. record r {
            status = completed;
            status_code = some code;
            response_json = some response;
          })
          t,
    )
    else (err key_error, t)

-- `release`
unfoldable pub release : String → Records → Records
release key t = delete_where (is_active key) t
