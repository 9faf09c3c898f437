-- ===== src/Request/Authority.antt =====
-- `port_is_well_formed`, `registered_name_is_well_formed`, `ip_literal_is_well_formed`,
-- `authority_is_well_formed` and `resolve_authority` of src/request.cpp. `inet_pton` for AF_INET6 is
-- the C library's, a parameter.
pub mod Agreement
use erikslund_http_embedded.Prelude.{
  ℕ, zero, suc, ◌+◌, ◌-◌, Bool, true, false, not, ◌&&◌, ◌||◌, Option, none, some, List, [], ◌∷◌,
  ◌++◌, ltb, leb, ◌==◌, if◌then◌else◌, Bytes, codes, is_empty, contains_byte, cut, length, take,
  drop, every, Result, ok, err, ◌>>=◌,
}
use erikslund_http_embedded.Request.Types.{HeaderView, ParseError, missing_host, malformed_host}
use erikslund_http_embedded.Request.Chars.{is_decimal_digit}
use erikslund_http_embedded.Request.Length.{decimal_value}
use erikslund_http_embedded.Text.Ascii.{equals_ignore_case}

abbrev starts_with_byte : Bytes → ℕ → Bool
starts_with_byte [] c = false
starts_with_byte (x ∷ s) c = x == c

unfoldable pub ends_with_byte : Bytes → ℕ → Bool
ends_with_byte [] c = false
ends_with_byte (x ∷ []) c = x == c
ends_with_byte (x ∷ y ∷ s) c = ends_with_byte (y ∷ s) c

unfoldable pub remove_last : Bytes → Bytes
remove_last [] = []
remove_last (x ∷ []) = []
remove_last (x ∷ y ∷ s) = x ∷ remove_last (y ∷ s)

-- Five digits are below 2 ^ 32, so `std::from_chars` parses them.
unfoldable pub port_is_well_formed : Bytes → Bool
port_is_well_formed port =
    if is_empty port || ltb 5 (length port) || starts_with_byte port b'0'
    then false
    else if not (every is_decimal_digit port)
    then false
    else leb (decimal_value 0 port) 65535

abbrev pub registered_name_specials : Bytes
registered_name_specials = codes "-._~"

unfoldable pub is_label_character : ℕ → Bool
is_label_character character =
    if (leb b'a' character && leb character b'z')
      || (leb b'A' character && leb character b'Z')
      || is_decimal_digit character
    then true
    else contains_byte registered_name_specials character

-- The loop over the labels; each round but the last takes a separator off.
unfoldable pub labels_are_well_formed : ℕ → Bytes → Bool
labels_are_well_formed zero rest = false
labels_are_well_formed (suc fuel) rest =
    let (label, more) = cut b'.' rest in
    elim (is_empty label || not (every is_label_character label)) [
      | true ↦ false
      | false ↦ elim more [ none ↦ true | some next ↦ labels_are_well_formed fuel next ]
    ]

unfoldable pub registered_name_is_well_formed : Bytes → Bool
unfolding labels_are_well_formed
registered_name_is_well_formed host =
    let rest = if ends_with_byte host b'.' then remove_last host else host in
    labels_are_well_formed (length rest + 1) rest

-- INET6_ADDRSTRLEN
abbrev pub inet6_address_capacity : ℕ
inet6_address_capacity = 46

-- `!port || port_is_well_formed(*port)`
abbrev pub port_may_stand : Option Bytes → Bool
port_may_stand none = true
port_may_stand (some port) = port_is_well_formed port

-- The loop over the fields: a second Host is refused.
unfoldable pub find_host : Option Bytes → List HeaderView → Result ParseError (Option Bytes)
find_host host [] = ok host
find_host host (field ∷ fields) =
    let later = find_host host fields in
    let found = find_host (some field.value) fields in
    if not (equals_ignore_case field.name (codes "Host"))
    then later
    else elim host [ some seen ↦ err malformed_host | none ↦ found ]

module _ (inet_pton_v6 : Bytes → Option Bytes) where
  unfoldable pub ip_literal_is_well_formed : Bytes → Bool
  ip_literal_is_well_formed literal =
      if not (starts_with_byte literal b'[')
        || not (ends_with_byte literal b']')
        || leb (length literal) 2
      then false
      else let body = take (length literal - 2) (drop 1 literal) in
        if leb inet6_address_capacity (length body)
        then false
        else elim (inet_pton_v6 body) [ none ↦ false | some address ↦ true ]

  -- What stands behind the "]" of a literal: nothing, or ":" and a port.
  unfoldable pub literal_tail_is_well_formed : Bytes → Bool
  literal_tail_is_well_formed [] = true
  literal_tail_is_well_formed (c ∷ port) = if c == b':' then port_is_well_formed port else false

  unfoldable pub authority_is_well_formed : Bytes → Bool
  unfolding ip_literal_is_well_formed literal_tail_is_well_formed
  authority_is_well_formed authority =
      if is_empty authority || contains_byte authority b'@'
      then false
      else if starts_with_byte authority b'['
      then (let (inside, after) = cut b']' authority in
          elim after [
            | none ↦ false
            | some tail ↦
                ip_literal_is_well_formed (inside ++ (b']' ∷ []))
                && literal_tail_is_well_formed tail
          ])
      else (let (host, port) = cut b':' authority in
          registered_name_is_well_formed host && port_may_stand port)

  -- What follows the loop.
  unfoldable pub agree_on_authority : Option Bytes → Bytes → Bool → Result ParseError Bytes
  agree_on_authority none target_authority is_version_11 =
      if is_version_11
      then err missing_host
      else if is_empty target_authority
      then ok []
      else if not (authority_is_well_formed target_authority)
      then err malformed_host
      else ok target_authority
  agree_on_authority (some host) target_authority is_version_11 =
      if not (authority_is_well_formed host)
      then err malformed_host
      else if is_empty target_authority
      then ok host
      else if not (authority_is_well_formed target_authority)
      then err malformed_host
      else if not (equals_ignore_case host target_authority)
      then err malformed_host
      else ok target_authority

  unfoldable pub resolve_authority : List HeaderView → Bytes → Bool → Result ParseError Bytes
  unfolding find_host agree_on_authority
  resolve_authority headers target_authority is_version_11 = do
    host ← find_host none headers
    agree_on_authority host target_authority is_version_11
