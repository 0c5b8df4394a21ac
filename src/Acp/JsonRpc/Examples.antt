-- ===== src/Acp/JsonRpc/Examples.antt =====
-- JSON values of the kinds that the messages use, and a failure that is parsed back.
use guigu_agent_bridge.Prelude.{◌≡◌, refl, Option, none, some, Bool, true, false, [], ◌∷◌, ok}
use guigu_agent_bridge.Prelude.Texts.{Text, codes, TextMap, get}
use guigu_agent_bridge.Acp.JsonRpc.{ℤ, pos, negsuc, Values, number, parse}
use guigu_agent_bridge.Acp.JsonRpc.RoundTrip.{IsJson, Envelope, failing, built, meant, parse-built}

mutual
  data Value : Type 0 where
    null_value : Value
    number_value : ℤ → Value
    string_value : Text → Value
    object_value : Members → Value

  data Members : Type 0 where
    empty : Members
    entry : Text → Value → Members → Members

abbrev members_of : TextMap Value → Members
members_of [] = empty
members_of ((name, value) ∷ rest) = entry name value (members_of rest)

abbrev listed : Members → TextMap Value
listed empty = []
listed (entry name value rest) = (name, value) ∷ listed rest

listed-members_of : (entries : TextMap Value) → listed (members_of entries) ≡ entries
listed-members_of [] = refl
listed-members_of ((name, value) ∷ rest) = rw (listed-members_of rest) refl

abbrev is_an_object : Value → Bool
is_an_object (object_value members) = true
is_an_object v = false

abbrev member_in : Value → Text → Option Value
member_in (object_value members) field = get field (listed members)
member_in v field = none

abbrev text_in : Value → Option Text
text_in (string_value text) = some text
text_in v = none

abbrev integer_in : Value → Option ℤ
integer_in (number_value n) = some n
integer_in v = none

abbrev values : Values Value
values = record {
  is_object = is_an_object;
  get = member_in;
  as_str = text_in;
  as_i64 = integer_in;
  null = null_value;
  number = number_value;
  string = string_value;
  object = λ entries. object_value (members_of entries);
}

values-IsJson : IsJson values
values-IsJson = record {
  object_object = λ members. refl;
  get_object = λ members field. rw (listed-members_of members) refl;
  as_i64_number = λ n. refl;
  as_i64_string = λ text. refl;
  as_str_string = λ text. refl;
}

abbrev refusal : Envelope Value
refusal = failing (number (pos 7)) (record {
  code = negsuc 32_600;
  message = codes "no such method";
  data_value = some null_value;
})

parse-built_example : parse values (built values refusal) ≡ ok (meant values refusal)
parse-built_example = parse-built values refusal values-IsJson
