-- ===== src/Examples/Requests.antt =====
-- Claimed requests, revisions and suggestions (src/persistence).
use shelf_life_copilot.Prelude.{
  String, ◌≡◌, refl, true, none, some, List, [], ◌∷◌, ok, err, value_error, utc, arith, ◌==◌,
  if◌then◌else◌,
}
use shelf_life_copilot.Prelude.Table.{find, contains}
use shelf_life_copilot.Models.Action.{transform}
use shelf_life_copilot.Models.Suggestion.{Suggestion}
use shelf_life_copilot.Persistence.IdempotencyStore.{
  IdempotencyRecord, Records, processing, new_claim, claim, complete, release,
}
use shelf_life_copilot.Persistence.IdempotencyStore as IdempotencyStore
use shelf_life_copilot.Persistence.IdempotencyStore.Phases.{
  phase, IsKeyed, claim_phase, phase-claim,
}
use shelf_life_copilot.Persistence.IdempotencyStore.Claims.{
  Call, claiming, releasing, run, answer_replayed, claim_excludes,
}
use shelf_life_copilot.Persistence.RevisionStore.{
  RevisionSession, Sessions, no_sessions, new_session, added, open_session,
}
use shelf_life_copilot.Persistence.RevisionStore.Rounds.{IsSound}
use shelf_life_copilot.Persistence.RevisionStore.Rounds as Rounds
use shelf_life_copilot.Persistence.RevisionStore.Rounds.Once.{one_round}
use shelf_life_copilot.Persistence.SuggestionStore.{Suggestions}

abbrev answer : IdempotencyRecord
answer = record (new_claim "k1" "scan") {
  status = IdempotencyStore.completed;
  status_code = some 200;
  response_json = some "{}";
}

abbrev records : Records
records = answer ∷ new_claim "k2" "scan" ∷ []

records-IsKeyed : IsKeyed records
records-IsKeyed = ((refl, tt), (tt, tt))

abbrev calls : List Call
calls = releasing "k1" ∷ claiming "k3" "scan" ∷ []

answer_replayed_example :
    (row : IdempotencyRecord) × (claim "k1" "scan" (run calls records)
      ≡ (ok (some row), run calls records))
    × (row.status ≡ IdempotencyStore.completed)
    × (row.request_kind ≡ "scan")
    × (row.status_code ≡ some 200)
    × (row.response_json ≡ some "{}")
unfolding phase find
answer_replayed_example = answer_replayed calls "k1" "scan" records records-IsKeyed refl refl refl

claim_excludes_example :
    (row : IdempotencyRecord) × (claim "k1" "scan"
        (run (claiming "k1" "other" ∷ releasing "k2" ∷ []) (new_claim "k1" "scan" ∷ []))
      ≡ (
        ok (some row),
        run (claiming "k1" "other" ∷ releasing "k2" ∷ []) (new_claim "k1" "scan" ∷ []),
      ))
    × (row.status ≡ processing)
unfolding claim find
claim_excludes_example =
    claim_excludes "k1" "scan" [] tt refl (claiming "k1" "other" ∷ releasing "k2" ∷ []) "scan" refl
      (refl, (refl, tt))

phase-claim_example :
    phase (claim "k3" "scan" records).1 "k1"
    ≡ (if "k3" == "k1" then claim_phase "scan" (phase records "k1") else phase records "k1")
phase-claim_example = phase-claim "k3" "scan" "k1" records refl refl

abbrev strip : String → String
strip s = s

abbrev session : RevisionSession
session = new_session 1 "ann" "c1" "b1" 10

abbrev sessions : Sessions
sessions = added no_sessions session

sessions-IsSound : IsSound sessions
sessions-IsSound = record {
  keyed = (tt, tt);
  one_pending = (tt, tt);
  ids_bounded = (omega arith, tt);
}

one_round_example :
    open_session "bob" "c1" "b1" (utc 10) (Rounds.run strip (Rounds.failing 1 ∷ []) sessions)
    ≡ (err value_error, Rounds.run strip (Rounds.failing 1 ∷ []) sessions)
unfolding open_session contains find
one_round_example =
    one_round strip "ann" "c1" "b1" (utc 10) no_sessions {s = session} {t' = sessions} refl
      (Rounds.failing 1 ∷ []) "bob" (utc 10) refl

abbrev suggestion : Suggestion
suggestion = record {
  batch_id = "b1";
  customer_id = "c1";
  action = transform;
  savings_estimate = 50;
  rationale = "sour soon";
  confidence = 900000;
  is_standard = true;
  generated_at = utc 10;
  llm_model = "m";
  user_feedback = none;
}

abbrev suggestions : Suggestions
suggestions = record {
  rows =
      suggestion
      ∷ record suggestion { generated_at = utc 20 }
      ∷ record suggestion { generated_at = utc 30 }
      ∷ [];
  last_id = 3;
}
