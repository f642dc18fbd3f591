-- ===== src/Examples/Callbacks.antt =====
-- Callbacks and clicks (src/webhook), and the rate limit (src/runtime/security.py).
use shelf_life_copilot.Prelude.{
  String, ◌≡◌, ◌↔◌, refl, false, Option, none, some, [], ◌∷◌, Result, ok, arith, ◌≤◌, DateTime,
}
use shelf_life_copilot.Prelude.Table.{find, update_where, count_where}
use shelf_life_copilot.Prelude.Int.{pos}
use shelf_life_copilot.Models.Action.{transform}
use shelf_life_copilot.Models.Batch.{Batch}
use shelf_life_copilot.Persistence.IdempotencyStore.{claim, complete}
use shelf_life_copilot.Persistence.IdempotencyStore.Phases.{phase}
use shelf_life_copilot.Persistence.IdempotencyStore.Claims.{claiming, run}
use shelf_life_copilot.Persistence.RevisionStore.{no_sessions}
use shelf_life_copilot.Persistence.SuggestionStore.{
  no_suggestions, Suggestions, latest_for_batch, newest,
}
use shelf_life_copilot.Webhook.Event.{WecomEvent, stable_event_id}
use shelf_life_copilot.Webhook.EventKey.{
  parse_event_key, event_key, has_colon, parse_event_key-ok_iff,
}
use shelf_life_copilot.Webhook.Click.{Stores, Services, ignored_message, handle_click}
use shelf_life_copilot.Webhook.Click.Effects.{IsEffect, handle_click-IsEffect}
use shelf_life_copilot.Webhook.Click.Approving.{IsApproval}
use shelf_life_copilot.Webhook.Callback.{
  Endpoint, World, receive_event, event_id, in_window, body, Reply,
}
use shelf_life_copilot.Webhook.Callback as Callback
use shelf_life_copilot.Webhook.Callback.Claimed.{left_by, receive_event-settles}
use shelf_life_copilot.Webhook.Callback.Replay.{receive_event-again}
use shelf_life_copilot.Security.{no_events}
use shelf_life_copilot.Security.Window.{admitted, recent, admitted-bounded}
use shelf_life_copilot.Examples.Orders.{tables}

abbrev pub batch : Batch
batch = record {
  batch_id = "b1";
  material_id = "m1";
  material_name = "milk";
  production_date = 0;
  expiry_date = 30;
  stock_qty = 5;
  unit = "kg";
  warehouse = "x";
  customer_id = "c1";
}

abbrev services : Services
services = record { load_batches = λ c. ok (batch ∷ []); uuid5 = λ s. s }

abbrev revise :
    String → String → String → Option Suggestions → Result (Option DateTime) × Option Suggestions
revise c b f t = (ok none, t)

abbrev endpoint : Endpoint
endpoint = record {
  services = services;
  decimal = λ i. "0";
  digest = λ s. s;
  strip = λ s. s;
  revise_for_batch = revise;
  to_json = λ d. "{}";
  from_json = λ s. ok ignored_message;
  replay_window_seconds = 300;
}

abbrev message : WecomEvent
message = record {
  to_user_name = "corp";
  from_user_name = "ann";
  create_time = pos 100;
  msg_type = "image";
  event = none;
  event_key = none;
  content = none;
  msg_id = some "7";
}

abbrev stores : Stores
stores = record { tables = tables; suggestions = some no_suggestions; sessions = some no_sessions }

abbrev world : World
world = record { stores = stores; records = [] }

receive_event-settles_example :
    phase (receive_event endpoint 100000000 message world).1.records (event_id endpoint message)
    ≡ left_by endpoint (receive_event endpoint 100000000 message world).0
unfolding in_window phase find
receive_event-settles_example = receive_event-settles endpoint 100000000 message world tt refl refl

receive_event-again_example :
    (let w2 : World = record {
      stores = record stores { suggestions = none };
      records =
          run (claiming "k" "scan" ∷ []) (receive_event endpoint 100000000 message world).1.records;
    } in
      receive_event endpoint 130000000 message w2 ≡ (Callback.answered ignored_message, w2))
unfolding in_window phase find receive_event body event_id stable_event_id claim complete
    update_where count_where
receive_event-again_example =
    receive_event-again endpoint 100000000 message world {d = ignored_message} refl tt refl refl
      refl 130000000 message (claiming "k" "scan" ∷ []) (record stores { suggestions = none }) refl
      refl

abbrev click : WecomEvent
click = record message {
  msg_type = "event";
  event = some "click";
  event_key = some "approve:c1:b1";
}

parse_event_key-ok_iff_example : (parse_event_key "approve:c1:b1" ≡ ok ("approve", "c1", "b1")) ↔ (
    ("approve:c1:b1" ≡ event_key "approve" "c1" "b1")
    × (has_colon "approve" ≡ false)
    × (has_colon "c1" ≡ false)
    × (has_colon "b1" ≡ false))
parse_event_key-ok_iff_example = parse_event_key-ok_iff "approve:c1:b1" "approve" "c1" "b1"

handle_click-IsEffect_example : IsEffect stores (handle_click services "wecom:7" 20 click stores)
handle_click-IsEffect_example = handle_click-IsEffect services "wecom:7" 20 click stores

click-IsApproval : IsApproval services click stores "c1" "b1" batch (transform, 0)
unfolding has_colon find latest_for_batch newest
click-IsApproval = record {
  key_is = refl;
  customer_plain = refl;
  batch_plain = refl;
  key_given = refl;
  batches = batch ∷ [];
  loaded = refl;
  listed = refl;
  resolved = refl;
}

admitted-bounded_example :
    recent 60 30
      (admitted 2 60 "a" (("a", 10) ∷ ("b", 11) ∷ ("a", 12) ∷ ("a", 20) ∷ []) no_events [])
    ≤ 2
admitted-bounded_example =
    admitted-bounded 2 60 "a" (("a", 10) ∷ ("b", 11) ∷ ("a", 12) ∷ ("a", 20) ∷ []) 30
      (omega arith, (omega arith, (omega arith, (omega arith, omega arith))))
