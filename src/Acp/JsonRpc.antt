-- ===== src/Acp/JsonRpc.antt =====
-- The messages of src/acp/jsonrpc.rs. serde_json's values are a parameter.
pub mod RoundTrip
pub mod Examples
use guigu_agent_bridge.Prelude.{
  ℕ, Option, none, some, Bool, true, false, List, [], ◌∷◌, ◌++◌, Result, ok, err, if◌then◌else◌,
  ok_or, ensure, ◌>>=◌,
}
use guigu_agent_bridge.Prelude.Texts.{Text, codes, TextMap}
use guigu_agent_bridge.Acp.Detail.{bounded}

-- An `i64`; `negsuc n` is `- n - 1`.
pub data ℤ : Type 0 where
  pos negsuc : ℕ → ℤ

-- What the program does with values: it looks at them, and it builds them with `json!`.
pub record Values (V : Type 0) : Type 0 where
  pub is_object : V → Bool
  pub get : V → Text → Option V
  pub as_str : V → Option Text
  pub as_i64 : V → Option ℤ
  pub null : V
  pub number : ℤ → V
  pub string : Text → V
  pub object : TextMap V → V

-- A numeric or a string id.
pub data RequestId : Type 0 where
  number : ℤ → RequestId
  string : Text → RequestId

pub record JsonRpcRequest (V : Type 0) : Type 0 where
  pub id : RequestId
  pub method : Text
  pub params : V

pub record JsonRpcNotification (V : Type 0) : Type 0 where
  pub method : Text
  pub params : V

pub record JsonRpcErrorObject (V : Type 0) : Type 0 where
  pub code : ℤ
  pub message : Text
  pub data_value : Option V

unfoldable pub new : {V : Type 0} → ℤ → Text → JsonRpcErrorObject V
new code message = record { code = code; message = bounded message; data_value = none }

pub data JsonRpcMessage (V : Type 0) : Type 0 where
  request : JsonRpcRequest V → JsonRpcMessage V
  notification : JsonRpcNotification V → JsonRpcMessage V
  response : RequestId → Result V (JsonRpcErrorObject V) → JsonRpcMessage V

pub data ProtocolError : Type 0 where
  not_an_object unrecognised_shape uncorrelatable_id missing_outcome : ProtocolError
  malformed_error : Text → ProtocolError

module _ {V : Type 0} (values : Values V) where
  abbrev pub str_of : Option V → Option Text
  str_of none = none
  str_of (some v) = values.as_str v

  abbrev pub i64_of : Option V → Option ℤ
  i64_of none = none
  i64_of (some v) = values.as_i64 v

  -- `RequestId::from_value`: a number that fits, or a string.
  abbrev pub id_from : Option ℤ → Option Text → Result RequestId ProtocolError
  id_from (some n) text = ok (number n)
  id_from none (some text) = ok (string text)
  id_from none none = err uncorrelatable_id

  unfoldable pub from_value : V → Result RequestId ProtocolError
  from_value value = id_from (values.as_i64 value) (values.as_str value)

  abbrev pub some_id : Result RequestId ProtocolError → Result (Option RequestId) ProtocolError
  some_id (ok id) = ok (some id)
  some_id (err e) = err e

  abbrev pub read_id : Option V → Result (Option RequestId) ProtocolError
  read_id none = ok none
  read_id (some value) = some_id (from_value value)

  abbrev pub or_null : Option V → V
  or_null none = values.null
  or_null (some v) = v

  abbrev pub malformed : Text → ProtocolError
  malformed detail = malformed_error detail

  unfoldable pub read_error : V → Result (JsonRpcErrorObject V) ProtocolError
  read_error value = do
    object ← ensure (values.is_object value) (malformed (codes "error is not an object"))
    code ←
        ok_or (malformed (codes "error has no numeric code"))
          (i64_of (values.get value (codes "code")))
    message ←
        ok_or (malformed (codes "error has no string message"))
          (str_of (values.get value (codes "message")))
    ok (record {
      code = code;
      message = bounded message;
      data_value = values.get value (codes "data");
    })

  abbrev pub failed :
      Result (JsonRpcErrorObject V) ProtocolError
      → Result (Result V (JsonRpcErrorObject V)) ProtocolError
  failed (ok error) = ok (err error)
  failed (err e) = err e

  abbrev pub outcome_of :
      Option V → Option V → Result (Result V (JsonRpcErrorObject V)) ProtocolError
  outcome_of (some result) none = ok (ok result)
  outcome_of none (some error) = failed (read_error error)
  outcome_of none none = err missing_outcome
  outcome_of (some result) (some error) = err missing_outcome

  -- The three shapes.
  abbrev pub shaped : V → Option Text → Option RequestId → Result (JsonRpcMessage V) ProtocolError
  shaped value (some method) none = ok (
      notification
        (record { method = method; params = or_null (values.get value (codes "params")) }))
  shaped value (some method) (some id) = ok (
      request
        (record { id = id; method = method; params = or_null (values.get value (codes "params")) }))
  shaped value none (some id) = do
    outcome ← outcome_of (values.get value (codes "result")) (values.get value (codes "error"))
    ok (response id outcome)
  shaped value none none = err unrecognised_shape

  unfoldable pub parse : V → Result (JsonRpcMessage V) ProtocolError
  parse value = do
    object ← ensure (values.is_object value) not_an_object
    id ← read_id (values.get value (codes "id"))
    shaped value (str_of (values.get value (codes "method"))) id

  abbrev pub version : Text × V
  version = (codes "jsonrpc", values.string (codes "2.0"))

  abbrev pub id_value : RequestId → V
  id_value (number n) = values.number n
  id_value (string text) = values.string text

  unfoldable pub request_value : ℤ → Text → V → V
  request_value id method params = values.object (
      version
      ∷ (codes "id", values.number id)
      ∷ (codes "method", values.string method)
      ∷ (codes "params", params)
      ∷ [])

  unfoldable pub notification_value : Text → V → V
  notification_value method params =
      values.object
        (version ∷ (codes "method", values.string method) ∷ (codes "params", params) ∷ [])

  unfoldable pub success : RequestId → V → V
  success id result =
      values.object (version ∷ (codes "id", id_value id) ∷ (codes "result", result) ∷ [])

  abbrev pub data_member : Option V → TextMap V
  data_member none = []
  data_member (some value) = (codes "data", value) ∷ []

  unfoldable pub failure : RequestId → JsonRpcErrorObject V → V
  failure id error = values.object (
      version
      ∷ (codes "id", id_value id)
      ∷ (
        codes "error",
        values.object (
            (codes "code", values.number error.code)
            ∷ (codes "message", values.string error.message)
            ∷ data_member error.data_value),
      )
      ∷ [])
