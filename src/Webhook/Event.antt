-- ===== src/Webhook/Event.antt =====
-- The callback message (src/webhook/schemas.py). A text of None is `none`.
use Prim.Native.String.{◌++◌}
use shelf_life_copilot.Prelude.{String, Option, none, some, ◌==◌, if◌then◌else◌}
use shelf_life_copilot.Prelude.Int.{ℤ}

pub record WecomEvent : Type 0 where
  pub to_user_name : String
  pub from_user_name : String
  -- seconds of the epoch
  pub create_time : ℤ
  pub msg_type : String
  pub event : Option String
  pub event_key : Option String
  pub content : Option String
  pub msg_id : Option String

-- `value or ""`
abbrev pub or_empty : Option String → String
or_empty none = ""
or_empty (some s) = s

abbrev separator : String
separator = "\u{1f}"

abbrev canonical : (ℤ → String) → WecomEvent → String
canonical decimal e =
    e.to_user_name
    ++ (separator
        ++ (e.from_user_name
            ++ (separator
                ++ (decimal e.create_time
                    ++ (separator
                        ++ (e.msg_type
                            ++ (separator
                                ++ (or_empty e.event
                                    ++ (separator
                                        ++ (or_empty e.event_key
                                            ++ (separator ++ or_empty e.content)))))))))))

-- `stable_event_id`; `decimal` is `str` of an int and `digest` the hex digest of SHA-256
unfoldable pub stable_event_id : (ℤ → String) → (String → String) → WecomEvent → String
stable_event_id decimal digest e =
    if or_empty e.msg_id == ""
    then "wecom:" ++ digest (canonical decimal e)
    else "wecom:" ++ or_empty e.msg_id
