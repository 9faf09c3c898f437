-- ===== src/Request/Query.antt =====
-- Query decoding: `decode_query_component_into` and `decode_query_into` of src/request.cpp.
-- The arena is the bytes decoded so far; where the source returns an error the request that owns
-- the arena is dropped, and the model keeps no arena.
pub mod Component
pub mod Params
use erikslund_http_embedded.Prelude.{
  ℕ, zero, suc, ◌+◌, ◌-◌, ◌*◌, true, false, not, ◌||◌, Option, none, some, List, [], ◌∷◌, ◌++◌, ltb,
  ◌==◌, if◌then◌else◌, Bytes, is_empty, cut, length, take, drop, Result, ok, err,
}
use erikslund_http_embedded.Request.Chars.{hex_value, byte_at}
use erikslund_http_embedded.Request.Types.{
  HeaderView, ParseError, target_too_long, bad_percent_encoding, max_parsed_headers,
}

infixl 5 ◌>>=◌
abbrev ◌>>=◌ : {A B : Type 0} → Option A → (A → Option B) → Option B
none >>= f = none
some a >>= f = f a

-- The two digits after a "%": the decoded byte, unless it is malformed or a control byte. A hex
-- value is below 16, so the shift by four bits and the `|` are a sum.
unfoldable pub decode_escape : Bytes → Option ℕ
decode_escape after = do
  high ← byte_at after 0
  low ← byte_at after 1
  high_value ← hex_value high
  low_value ← hex_value low
  let decoded = high_value * 16 + low_value
  if ltb decoded 0x20 || decoded == 0x7F then none else some decoded

-- One round of the loop: the byte that it appends, and what is left of `raw`.
unfoldable pub decode_query_byte : ℕ → Bytes → Option (ℕ × Bytes)
unfolding decode_escape
decode_query_byte character after =
    if character == b'+'
    then some (b' ', after)
    else if not (character == b'%')
    then some (character, after)
    else elim (decode_escape after) [ none ↦ none | some decoded ↦ some (decoded, drop 2 after) ]

unfoldable pub decode_query_component_from : ℕ → Bytes → Bytes → Option Bytes
decode_query_component_from zero arena raw = none
decode_query_component_from (suc fuel) arena [] = some arena
decode_query_component_from (suc fuel) arena (character ∷ after) =
    elim (decode_query_byte character after) [
      | none ↦ none
      | some (byte, rest) ↦ decode_query_component_from fuel (arena ++ (byte ∷ [])) rest
    ]

-- A round takes at least a byte off `raw`, so this fuel is enough.
unfoldable pub decode_query_component_into : Bytes → Bytes → Option Bytes
unfolding decode_query_component_from decode_query_byte
decode_query_component_into arena raw = decode_query_component_from (length raw + 1) arena raw

abbrev pub Headers : Type 0
Headers = List HeaderView

-- `arena_view`: the bytes of a range of the arena.
abbrev pub arena_view : Bytes → ℕ → ℕ → Bytes
arena_view arena offset count = take count (drop offset arena)

-- The end of a round, for a pair with a name: the arena and the parameters after it.
unfoldable pub add_parameter : Bytes → Headers → Bytes → Bytes → Result ParseError (Bytes × Headers)
unfolding decode_query_component_into
add_parameter arena out raw_name raw_value =
    if length out == max_parsed_headers
    then err target_too_long
    else elim (decode_query_component_into arena raw_name) [
      | none ↦ err bad_percent_encoding
      | some with_name ↦ elim (decode_query_component_into with_name raw_value) [
        | none ↦ err bad_percent_encoding
        | some with_value ↦
            let name_begin = length arena in
            let value_begin = length with_name in
            let parameter : HeaderView = record {
              name = arena_view with_value name_begin (value_begin - name_begin);
              value = arena_view with_value value_begin (length with_value - value_begin);
            } in
            ok (with_value, out ++ (parameter ∷ []))
      ]
    ]

-- What stands behind a separator, or nothing.
abbrev pub after_separator : Option Bytes → Bytes
after_separator none = []
after_separator (some v) = v

-- The rest of a round for a pair that is not empty.
unfoldable pub decode_pair : Bytes → Headers → Bytes → Result ParseError (Bytes × Headers)
unfolding add_parameter
decode_pair arena out pair =
    let (raw_name, value) = cut b'=' pair in
    if is_empty raw_name
    then ok (arena, out)
    else add_parameter arena out raw_name (after_separator value)

-- The loop over the pairs; the fuel is more than the bytes that are left.
unfoldable pub decode_query_from : ℕ → Bytes → Headers → Bytes → Result ParseError (Bytes × Headers)
decode_query_from zero arena out rest = err target_too_long
decode_query_from (suc fuel) arena out rest = elim (is_empty rest) [
  | true ↦ ok (arena, out)
  | false ↦
      let (pair, more) = cut b'&' rest in
      let next = after_separator more in
      elim (if is_empty pair then ok (arena, out) else decode_pair arena out pair) [
        | err e ↦ err e
        | ok (arena', out') ↦ decode_query_from fuel arena' out' next
      ]
]

unfoldable pub decode_query_into : Bytes → Bytes → Headers → Result ParseError (Bytes × Headers)
unfolding decode_query_from decode_pair
decode_query_into arena raw_query out = decode_query_from (length raw_query + 1) arena out raw_query
