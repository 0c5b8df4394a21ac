-- ===== src/Acp/JsonRpc/RoundTrip.antt =====
-- Messages of src/acp/jsonrpc.rs that are built and parsed.
use guigu_agent_bridge.Prelude.{◌≡◌, refl, Option, none, some, true, ◌∷◌, ok, err}
use guigu_agent_bridge.Prelude.Texts.{Text, codes, TextMap, get, text_eq}
use guigu_agent_bridge.Acp.Detail.{bounded}
use guigu_agent_bridge.Acp.JsonRpc.{
  ℤ, Values, RequestId, number, string, JsonRpcErrorObject, JsonRpcMessage, request, notification,
  response, from_value, read_error, data_member, parse, id_value, request_value, notification_value,
  success, failure,
}

-- How serde_json's values behave: an object has the members it was built with, and numbers and strings
-- are what they were built from.
pub record IsJson {V : Type 0} (values : Values V) : Type 0 where
  pub object_object : (members : TextMap V) → values.is_object (values.object members) ≡ true
  pub get_object :
      (members : TextMap V) (field : Text)
      → values.get (values.object members) field ≡ get field members
  pub as_i64_number : (n : ℤ) → values.as_i64 (values.number n) ≡ some n
  pub as_i64_string : (text : Text) → values.as_i64 (values.string text) ≡ none
  pub as_str_string : (text : Text) → values.as_str (values.string text) ≡ some text

-- The four envelopes that the bridge builds.
pub data Envelope (V : Type 0) : Type 0 where
  asking : ℤ → Text → V → Envelope V
  telling : Text → V → Envelope V
  succeeding : RequestId → V → Envelope V
  failing : RequestId → JsonRpcErrorObject V → Envelope V

module _ {V : Type 0} (values : Values V) where
  abbrev pub built : Envelope V → V
  built (asking id method params) = request_value values id method params
  built (telling method params) = notification_value values method params
  built (succeeding id result) = success values id result
  built (failing id error) = failure values id error

  abbrev pub bounded_error : JsonRpcErrorObject V → JsonRpcErrorObject V
  bounded_error error = record error { message = bounded error.message }

  abbrev pub meant : Envelope V → JsonRpcMessage V
  meant (asking id method params) =
      request (record { id = number id; method = method; params = params })
  meant (telling method params) = notification (record { method = method; params = params })
  meant (succeeding id result) = response id (ok result)
  meant (failing id error) = response id (err (bounded_error error))

  module _ (laws : IsJson values) where
    from_value-id_value : (id : RequestId) → from_value values (id_value values id) ≡ ok id
    unfolding from_value
    from_value-id_value (number n) = rw (laws.as_i64_number n) refl
    from_value-id_value (string text) = rw (laws.as_i64_string text, laws.as_str_string text) refl

    parse-request :
        (id : ℤ) (method : Text) (params : V)
        → parse values (request_value values id method params)
          ≡ ok (request (record { id = number id; method = method; params = params }))
    unfolding parse request_value from_value get text_eq
    parse-request id method params =
        rw
          (
            laws.object_object, laws.get_object, laws.as_i64_number, laws.get_object,
            laws.as_str_string, laws.get_object,
          )
          refl

    parse-notification :
        (method : Text) (params : V)
        → parse values (notification_value values method params)
          ≡ ok (notification (record { method = method; params = params }))
    unfolding parse notification_value from_value get text_eq
    parse-notification method params =
        rw
          (
            laws.object_object, laws.get_object, laws.get_object, laws.as_str_string,
            laws.get_object,
          )
          refl

    parse-success :
        (id : RequestId) (result : V)
        → parse values (success values id result) ≡ ok (response id (ok result))
    unfolding parse success get text_eq
    parse-success id result =
        rw
          (
            laws.object_object,
            laws.get_object,
            from_value-id_value id,
            laws.get_object,
            laws.get_object,
            laws.get_object,
          )
          refl

    abbrev error_members : JsonRpcErrorObject V → TextMap V
    error_members error =
        (codes "code", values.number error.code)
        ∷ (codes "message", values.string error.message)
        ∷ data_member values error.data_value

    get_data :
        (error : JsonRpcErrorObject V) (data_value : Option V)
        → get (codes "data") (data_member values data_value) ≡ data_value
    unfolding get text_eq
    get_data error none = refl
    get_data error (some v) = refl

    read_error-object :
        (error : JsonRpcErrorObject V)
        → read_error values (values.object (error_members error)) ≡ ok (bounded_error error)
    unfolding read_error get text_eq
    read_error-object error =
        rw
          (
            laws.object_object,
            laws.get_object,
            laws.as_i64_number,
            laws.get_object,
            laws.as_str_string,
            laws.get_object,
            get_data error error.data_value,
          )
          refl

    parse-failure :
        (id : RequestId) (error : JsonRpcErrorObject V)
        → parse values (failure values id error) ≡ ok (response id (err (bounded_error error)))
    unfolding parse failure get text_eq
    parse-failure id error =
        rw
          (
            laws.object_object,
            laws.get_object,
            from_value-id_value id,
            laws.get_object,
            laws.get_object,
            laws.get_object,
            read_error-object error,
          )
          refl

  -- What the bridge builds, it parses back: each request, notification, success and failure is read
  -- as the message that it means, with its id, method, parameters or outcome; only the message of an
  -- error is cut to its bound. The JSON values behave as serde_json's do.
  pub parse-built :
      (envelope : Envelope V) → IsJson values → parse values (built envelope) ≡ ok (meant envelope)
  parse-built (asking id method params) laws = parse-request laws id method params
  parse-built (telling method params) laws = parse-notification laws method params
  parse-built (succeeding id result) laws = parse-success laws id result
  parse-built (failing id error) laws = parse-failure laws id error
