-- ===== src/Sse/Frame.antt =====
-- The frame of one event: `append_data_lines` to `build_retry_frame` of src/sse.cpp.
pub mod Text
pub mod Size
use erikslund_http_embedded.Prelude.{
  ℕ, Bytes, codes, length, zero, suc, ◌+◌, ◌-◌, ◌*◌, ◌||◌, Option, none, some, [], ◌∷◌, ◌++◌, map,
  ltb, ◌==◌, if◌then◌else◌, is_empty,
}
use erikslund_http_embedded.Text.Decimal.{decimal}

abbrev pub cr : ℕ
cr = 13

abbrev pub lf : ℕ
lf = 10

abbrev pub event_field_prefix : Bytes
event_field_prefix = codes "event: "

abbrev pub data_field_prefix : Bytes
data_field_prefix = codes "data: "

abbrev pub retry_field_prefix : Bytes
retry_field_prefix = codes "retry: "

-- What is behind a CR: an LF there belongs to the same break.
unfoldable pub skip_lf : Bytes → Bytes
skip_lf [] = []
skip_lf (c ∷ s) = if c == lf then s else c ∷ s

-- The payload up to the first CR or LF, and what is behind the break.
unfoldable pub cut_line : Bytes → Bytes × Option Bytes
unfolding skip_lf
cut_line [] = ([], none)
cut_line (c ∷ s) =
    let (line, after) = cut_line s in
    if c == cr then ([], some (skip_lf s)) else if c == lf then ([], some s) else (c ∷ line, after)

-- The loop of `append_data_lines`.
unfoldable pub append_lines_from : ℕ → Bytes → Bytes → Bytes
unfolding cut_line
append_lines_from zero frame payload = frame
append_lines_from (suc fuel) frame payload =
    let (line, after) = cut_line payload in
    let longer = frame ++ (data_field_prefix ++ (line ++ (lf ∷ []))) in
    elim after [ none ↦ longer | some rest ↦ append_lines_from fuel longer rest ]

unfoldable pub append_data_lines : Bytes → Bytes → Bytes
unfolding append_lines_from
append_data_lines frame payload = append_lines_from (length payload + 1) frame payload

-- A break in a name becomes a space.
unfoldable pub name_byte : ℕ → ℕ
name_byte character = if character == cr || character == lf then b' ' else character

unfoldable pub append_event_name : Bytes → Bytes → Bytes
unfolding name_byte
append_event_name frame event = frame ++ (event_field_prefix ++ (map name_byte event ++ (lf ∷ [])))

-- `add_frame_bytes`, whose size never exceeds the limit, so that the difference does not wrap.
unfoldable pub add_frame_bytes : ℕ → ℕ → ℕ → Option ℕ
add_frame_bytes frame_size bytes limit =
    if ltb (limit - frame_size) bytes then none else some (frame_size + bytes)

-- Three additions in a row, each only if those before it fit.
unfoldable pub add_three : ℕ → ℕ → ℕ → ℕ → ℕ → Option ℕ
unfolding add_frame_bytes
add_three frame_size a b c limit = elim (add_frame_bytes frame_size a limit) [
  | none ↦ none
  | some with_a ↦ elim (add_frame_bytes with_a b limit) [
    | none ↦ none
    | some with_b ↦ add_frame_bytes with_b c limit
  ]
]

unfoldable pub lines_size_from : ℕ → ℕ → Bytes → ℕ → Option ℕ
unfolding cut_line add_three
lines_size_from zero frame_size payload limit = none
lines_size_from (suc fuel) frame_size payload limit =
    let (line, after) = cut_line payload in
    elim (add_three frame_size (length data_field_prefix) (length line) 1 limit) [
      | none ↦ none
      | some larger ↦ elim after [
        | none ↦ some larger
        | some rest ↦ lines_size_from fuel larger rest limit
      ]
    ]

unfoldable pub event_frame_size : Bytes → Bytes → ℕ → Option ℕ
unfolding lines_size_from
event_frame_size event payload limit =
    let named =
      if is_empty event
      then some 0
      else add_three 0 (length event_field_prefix) (length event) 1 limit in
    elim named [
      | none ↦ none
      | some name_size ↦ elim (lines_size_from (length payload + 1) name_size payload limit) [
        | none ↦ none
        | some lines_size ↦ add_frame_bytes lines_size 1 limit
      ]
    ]

unfoldable pub build_event_frame : Bytes → Bytes → Bytes
unfolding append_data_lines append_event_name
build_event_frame event payload =
    let named = if is_empty event then [] else append_event_name [] event in
    append_data_lines named payload ++ (lf ∷ [])

-- The hint is in seconds; `ℕ` has the range of the source's 64 bits for any hint of use.
unfoldable pub build_retry_frame : ℕ → Bytes
build_retry_frame retry_hint = retry_field_prefix ++ (decimal (retry_hint * 1000) ++ (lf ∷ lf ∷ []))
