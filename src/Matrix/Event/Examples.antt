-- ===== src/Matrix/Event/Examples.antt =====
-- A message as a JSON value, and its decoding.
use guigu_agent_bridge.Prelude.{
  ◌≡◌, refl, Option, none, some, Bool, true, false, [], ◌∷◌, ok, if◌then◌else◌,
}
use guigu_agent_bridge.Prelude.Texts.{Text, codes, text_eq, TextMap, get}
use guigu_agent_bridge.Matrix.Event.{
  InboundMatrixEvent, Values, required_bounded, thread_root, decode, decode_event,
}
use guigu_agent_bridge.Matrix.Event.Decoded.{IsDecoded, decode_event-IsDecoded}

-- A string, an object of strings, or an object with a content.
data Value : Type 0 where
  string : Text → Value
  object : TextMap Text → Value
  message : TextMap Text → TextMap Text → Value

abbrev as_string : Option Text → Option Value
as_string none = none
as_string (some text) = some (string text)

abbrev member_of : Value → Text → Option Value
member_of (string text) field = none
member_of (object members) field = as_string (get field members)
member_of (message members content) field =
    if text_eq field (codes "content") then some (object content) else as_string (get field members)

abbrev text_in : Value → Option Text
text_in (string text) = some text
text_in (object members) = none
text_in (message members content) = none

abbrev not_string : Value → Bool
not_string (string text) = false
not_string (object members) = true
not_string (message members content) = true

abbrev hello : Value
hello =
    message
      ((codes "type", codes "m.room.message")
        ∷ (codes "event_id", codes "$1")
        ∷ (codes "sender", codes "@a:x")
        ∷ [])
      ((codes "msgtype", codes "m.text") ∷ (codes "body", codes "hi") ∷ [])

abbrev values : Values Value
values = record {
  from_str = λ raw. some hello;
  get = member_of;
  as_str = text_in;
  is_object = not_string;
}

abbrev decoded : InboundMatrixEvent
decoded = record {
  event_id = codes "$1";
  room_id = codes "!r:x";
  thread_root = none;
  sender = codes "@a:x";
  body = codes "hi";
}

hello_decoded :
    decode_event values (codes "{}") (codes "!r:x") (codes "@bridge:x") ≡ ok (some decoded)
unfolding decode_event decode required_bounded thread_root get text_eq
hello_decoded = refl

own_test : decode_event values (codes "{}") (codes "!r:x") (codes "@a:x") ≡ ok none
unfolding decode_event decode required_bounded thread_root get text_eq
own_test = refl

decode_event-IsDecoded_example :
    IsDecoded values (codes "{}") (codes "!r:x") (codes "@bridge:x") decoded
decode_event-IsDecoded_example =
    decode_event-IsDecoded values (codes "{}") (codes "!r:x") (codes "@bridge:x") decoded
      hello_decoded
