-- ===== src/Json.antt =====
-- encoding/json as far as the program uses it: objects of strings and int64 numbers, decoded into
-- Go structs. A payload stands for the JSON document that its bytes spell.
use streamledger.Prelude.{
  ◌^◌, ◌≡◌, Bool, true, ◌&&◌, List, [], ◌∷◌, String, arith, ltb, leb, ℤ, pos_part, neg_part, ◌==◌,
  string_eq, if◌then◌else◌,
}
use streamledger.Int64.{IsInt64}
use streamledger.Outcome.{Outcome, ok, err, bad_json, ◌>>=◌}

-- `other` is any value that no string or int64 field accepts: a boolean, an array, an object, or a
-- number with a fraction or an exponent.
pub data JsonValue : Type 0 where
  null other : JsonValue
  str : String → JsonValue
  int : ℤ → JsonValue

pub data Payload : Type 0 where
  malformed : Payload
  value : JsonValue → Payload
  object : List (String × JsonValue) → Payload

abbrev is_int64 : ℤ → Bool
is_int64 z = ltb (pos_part z) (2 ^ 63) && leb (neg_part z) (2 ^ 63)

-- One value decoded into a field that holds `old`: `null` leaves it, another kind is an error.
abbrev int_value : JsonValue → ℤ → Outcome ℤ
int_value (int z) old = if is_int64 z then ok z else err bad_json
int_value null old = ok old
int_value _ old = err bad_json

abbrev str_value : JsonValue → String → Outcome String
str_value (str s) old = ok s
str_value null old = ok old
str_value _ old = err bad_json

-- The fields of the document are read in order; a later one with the same key wins.
abbrev pub decode_int : String → List (String × JsonValue) → ℤ → Outcome ℤ
decode_int name [] old = ok old
decode_int name ((key, v) ∷ fields) old =
    (if key == name then int_value v old else ok old) >>= decode_int name fields

abbrev pub decode_str : String → List (String × JsonValue) → String → Outcome String
decode_str name [] old = ok old
decode_str name ((key, v) ∷ fields) old =
    (if key == name then str_value v old else ok old) >>= decode_str name fields

-- json.Unmarshal into a struct: only an object (or `null`, which changes nothing) fits.
abbrev pub fields_of : Payload → Outcome (List (String × JsonValue))
fields_of (object fields) = ok fields
fields_of (value null) = ok []
fields_of _ = err bad_json

-- A string field with the `omitempty` option.
abbrev pub omit_empty : String → String → List (String × JsonValue)
omit_empty name s = if s == "" then [] else (name, str s) ∷ []

pub is_int64_of_IsInt64 : (z : ℤ) → IsInt64 z → is_int64 z ≡ true
is_int64_of_IsInt64 z h = ground arith
