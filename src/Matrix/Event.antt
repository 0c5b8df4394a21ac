-- ===== src/Matrix/Event.antt =====
-- `decode_event` of src/matrix/event.rs. serde_json is a parameter: its parser and the values' accessors.
pub mod Decoded
pub mod Examples
use guigu_agent_bridge.Prelude.{
  ℕ, ◌+◌, ◌*◌, Option, none, some, Bool, true, false, not, ◌&&◌, ◌||◌, Result, ok, err, ltb,
  if◌then◌else◌, length, is_empty, is_some, ok_or, ensure, ◌>>=◌,
}
use guigu_agent_bridge.Prelude.Texts.{Text, codes, text_eq}
use guigu_agent_bridge.Matrix.{MatrixError, protocol}

pub record InboundMatrixEvent : Type 0 where
  pub event_id : Text
  pub room_id : Text
  pub thread_root : Option Text
  pub sender : Text
  pub body : Text

abbrev pub max_id_bytes : ℕ
max_id_bytes = 1024

abbrev pub max_body_bytes : ℕ
max_body_bytes = 64 * 1024

-- Parsing, the member of an object (none for other values), and the tests for strings and objects.
pub record Values (V : Type 0) : Type 0 where
  pub from_str : Text → Option V
  pub get : V → Text → Option V
  pub as_str : V → Option Text
  pub is_object : V → Bool

-- How `decode_event` returns before its end: with `Ok(None)` or with an error.
pub data Exit : Type 0 where
  ignored : Exit
  refused : MatrixError → Exit

abbrev pub refuse : Text → Exit
refuse detail = refused (protocol detail)

abbrev pub finished :
    Result InboundMatrixEvent Exit → Result (Option InboundMatrixEvent) MatrixError
finished (ok event) = ok (some event)
finished (err ignored) = ok none
finished (err (refused e)) = err e

abbrev pub out_of_bounds : Text → Bool
out_of_bounds text = is_empty text || ltb max_id_bytes (length text)

module _ {V : Type 0} (values : Values V) where
  -- `value.get(field).and_then(as_str)`.
  abbrev pub str_of : Option V → Option Text
  str_of none = none
  str_of (some v) = values.as_str v

  abbrev pub member : Option V → Text → Option V
  member none field = none
  member (some v) field = values.get v field

  abbrev pub equals : Option Text → Text → Bool
  equals none text = false
  equals (some found) text = text_eq found text

  abbrev pub object_of : Option V → Option V
  object_of none = none
  object_of (some v) = if values.is_object v then some v else none

  unfoldable pub required_bounded : V → Text → Result Text Exit
  required_bounded value field = do
    text ← ok_or (refuse (codes "required event ID is missing")) (str_of (values.get value field))
    bounded ← ensure (not (out_of_bounds text)) (refuse (codes "event identifier is invalid"))
    ok text

  abbrev pub some_text : Result Text Exit → Result (Option Text) Exit
  some_text (ok text) = ok (some text)
  some_text (err e) = err e

  -- The root of the thread that the relation names.
  unfoldable pub thread_root : Option V → Result (Option Text) Exit
  thread_root none = ok none
  thread_root (some relation) =
      if equals (str_of (values.get relation (codes "rel_type"))) (codes "m.thread")
      then some_text (required_bounded relation (codes "event_id"))
      else ok none

  unfoldable pub decode : Text → Text → Text → Result InboundMatrixEvent Exit
  decode raw room_id own_user_id = do
    small ←
        ensure (not (ltb (max_body_bytes + 4 * max_id_bytes) (length raw)))
          (refuse (codes "event is too large"))
    value ← ok_or (refuse (codes "malformed event JSON")) (values.from_str raw)
    plain ←
        ensure
          (not (
            is_some (values.get value (codes "state_key"))
            || is_some (member (values.get value (codes "unsigned")) (codes "redacted_because"))))
          ignored
    message ←
        ensure (equals (str_of (values.get value (codes "type"))) (codes "m.room.message")) ignored
    content ←
        ok_or (refuse (codes "message content is missing"))
          (object_of (values.get value (codes "content")))
    text ← ensure (equals (str_of (values.get content (codes "msgtype"))) (codes "m.text")) ignored
    event_id ← required_bounded value (codes "event_id")
    sender ← required_bounded value (codes "sender")
    foreign ← ensure (not (text_eq sender own_user_id)) ignored
    room ← ensure (not (out_of_bounds room_id)) (refuse (codes "invalid room ID"))
    body ←
        ok_or (refuse (codes "message body is missing"))
          (str_of (values.get content (codes "body")))
    body_small ←
        ensure (not (ltb max_body_bytes (length body))) (refuse (codes "message body is too large"))
    root ← thread_root (values.get content (codes "m.relates_to"))
    ok (record {
      event_id = event_id;
      room_id = room_id;
      thread_root = root;
      sender = sender;
      body = body;
    })

  unfoldable pub decode_event : Text → Text → Text → Result (Option InboundMatrixEvent) MatrixError
  decode_event raw room_id own_user_id = finished (decode raw room_id own_user_id)
