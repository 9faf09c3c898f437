-- ===== src/Cidr.antt =====
-- src/cidr.cpp: the allow list of networks, and `PeerAddress`. An address is the list of its 16 bytes.
-- `inet_pton` and `inet_ntop` are the C library's, parameters.
pub mod Bits
pub mod Network
pub mod Clear
pub mod Entry
use erikslund_http_embedded.Text.Decimal.{decimal}
use erikslund_http_embedded.Prelude.{
  ℕ, zero, suc, ◌+◌, ◌-◌, ◌*◌, ◌/◌, ◌%◌, ◌^◌, bit_and, Bool, true, false, not, ◌&&◌, ◌||◌, Option,
  none, some, List, [], ◌∷◌, ◌++◌, ltb, leb, ◌==◌, if◌then◌else◌, Bytes, codes, is_empty,
  contains_byte, cut, length, get_or, set, drop, replicate, every, Result, ok, err,
}
use erikslund_http_embedded.Peer.{PeerAddress}
use erikslund_http_embedded.Request.Length.{decimal_value}
use erikslund_http_embedded.Request.Authority.{inet6_address_capacity}
use erikslund_http_embedded.Request.Chars.{is_decimal_digit}

abbrev pub bits_per_byte : ℕ
bits_per_byte = 8

abbrev pub all_bits_set : ℕ
all_bits_set = 0xFF

abbrev pub ipv6_prefix_bit_count : ℕ
ipv6_prefix_bit_count = 128

abbrev pub mapped_prefix_offset_bits : ℕ
mapped_prefix_offset_bits = 96

abbrev pub ipv4_prefix_bit_count : ℕ
ipv4_prefix_bit_count = 32

abbrev pub mapped_marker : Bytes
mapped_marker = 0xFF ∷ 0xFF ∷ []

pub data CidrError : Type 0 where
  malformed_entry bad_prefix_length bad_address : CidrError

pub record Rule : Type 0 where
  pub network : Bytes
  pub prefix_bits : ℕ
  pub is_v4 : Bool

pub record ParsedAddress : Type 0 where
  pub bytes : Bytes
  pub from_dotted_quad : Bool

-- The bytes below an index are zero.
unfoldable pub zero_before : ℕ → Bytes → Bool
zero_before zero bytes = true
zero_before (suc n) [] = true
zero_before (suc n) (b ∷ bytes) = b == 0 && zero_before n bytes

unfoldable pub is_ipv4_mapped : Bytes → Bool
unfolding zero_before
is_ipv4_mapped bytes =
    zero_before 10 bytes && get_or bytes 10 0 == 0xFF && get_or bytes 11 0 == 0xFF

unfoldable pub is_ipv6_loopback : Bytes → Bool
unfolding zero_before
is_ipv6_loopback bytes = zero_before 15 bytes && get_or bytes 15 0 == 1

-- The bits of the prefix in the byte that it ends in.
abbrev pub partial_mask : ℕ → ℕ
partial_mask remaining_bits = all_bits_set * 2 ^ (bits_per_byte - remaining_bits)

-- The bytes from an index on become zero.
unfoldable pub zero_from : ℕ → Bytes → Bytes
zero_from index [] = []
zero_from zero (b ∷ bytes) = 0 ∷ zero_from zero bytes
zero_from (suc index) (b ∷ bytes) = b ∷ zero_from index bytes

unfoldable pub clear_host_bits : Bytes → ℕ → Bytes
unfolding zero_from
clear_host_bits bytes prefix_bits =
    let whole_bytes = prefix_bits / bits_per_byte in
    let remaining_bits = prefix_bits % bits_per_byte in
    if remaining_bits == 0
    then zero_from whole_bytes bytes
    else zero_from (whole_bytes + 1)
        (set bytes whole_bytes (bit_and (get_or bytes whole_bytes 0) (partial_mask remaining_bits)))

-- The bytes below an index agree.
unfoldable pub same_before : ℕ → Bytes → Bytes → Bool
same_before zero address network = true
same_before (suc n) (a ∷ address) (b ∷ network) = a == b && same_before n address network
same_before (suc n) _ _ = false

unfoldable pub matches : Rule → Bytes → Bool
unfolding same_before
matches rule address =
    let whole_bytes = rule.prefix_bits / bits_per_byte in
    let remaining_bits = rule.prefix_bits % bits_per_byte in
    let mask = partial_mask remaining_bits in
    if ltb ipv6_prefix_bit_count rule.prefix_bits
    then false
    else if not (same_before whole_bytes address rule.network)
    then false
    else if remaining_bits == 0
    then true
    else bit_and (get_or address whole_bytes 0) mask
      == bit_and (get_or rule.network whole_bytes 0) mask

-- The loop of `allows`.
unfoldable pub some_match : List Rule → Bytes → Bool
unfolding matches
some_match [] address = false
some_match (rule ∷ rules) address = if matches rule address then true else some_match rules address

unfoldable pub allows : List Rule → PeerAddress → Bool
unfolding some_match
allows rules peer =
    if is_empty rules then true else if peer.is_unix then true else some_match rules peer.bytes

unfoldable pub is_loopback : PeerAddress → Bool
unfolding is_ipv4_mapped is_ipv6_loopback
is_loopback peer =
    if peer.is_unix
    then true
    else if peer.is_v4 || is_ipv4_mapped peer.bytes
    then get_or peer.bytes 12 0 == 127
    else is_ipv6_loopback peer.bytes

-- Of the digits that `std::from_chars` reads into 32 bits, none may be left.
unfoldable pub parse_prefix : Bytes → Bool → Result CidrError ℕ
unfolding decimal_value is_decimal_digit every
parse_prefix text from_dotted_quad =
    let written_bits = decimal_value 0 text in
    let maximum_bits = if from_dotted_quad then ipv4_prefix_bit_count else ipv6_prefix_bit_count in
    if is_empty text || not (every is_decimal_digit text) || leb (2 ^ 32) written_bits
    then err bad_prefix_length
    else if ltb maximum_bits written_bits
    then err bad_prefix_length
    else ok (if from_dotted_quad then written_bits + mapped_prefix_offset_bits else written_bits)

-- The rule of an address, or of a network that is written with its prefix.
unfoldable pub rule_of : ParsedAddress → ℕ → Rule
unfolding clear_host_bits is_ipv4_mapped
rule_of address prefix_bits =
    let network = clear_host_bits address.bytes prefix_bits in
    record {
      network = network;
      prefix_bits = prefix_bits % 2 ^ 8;
      is_v4 =
          address.from_dotted_quad
          || (is_ipv4_mapped network && leb mapped_prefix_offset_bits prefix_bits);
    }

unfoldable pub prefix_of : Option Bytes → Bool → Result CidrError ℕ
unfolding parse_prefix
prefix_of none from_dotted_quad = ok ipv6_prefix_bit_count
prefix_of (some prefix_text) from_dotted_quad = parse_prefix prefix_text from_dotted_quad

abbrev pub text_or_empty : Option Bytes → Bytes
text_or_empty none = []
text_or_empty (some text) = text

module _ (inet_pton_v4 inet_pton_v6 : Bytes → Option Bytes) where
  unfoldable pub parse_address : Bytes → Option ParsedAddress
  parse_address text =
      if is_empty text || leb inet6_address_capacity (length text) || contains_byte text 0
      then none
      else elim (inet_pton_v4 text) [
        | some address ↦ some (record {
          bytes = replicate 10 0 ++ (mapped_marker ++ address);
          from_dotted_quad = true;
        })
        | none ↦ elim (inet_pton_v6 text) [
          | some address ↦ some (record { bytes = address; from_dotted_quad = false })
          | none ↦ none
        ]
      ]

  unfoldable pub parse_entry : Bytes → Result CidrError Rule
  unfolding parse_address rule_of prefix_of cut contains_byte
  parse_entry entry =
      let (address_text, prefix_text) = cut b'/' entry in
      if is_empty entry
      then err malformed_entry
      else if is_empty address_text || contains_byte (text_or_empty prefix_text) b'/'
      then err malformed_entry
      else elim (parse_address address_text) [
        | none ↦ err bad_address
        | some address ↦ elim (prefix_of prefix_text address.from_dotted_quad) [
          | err e ↦ err e
          | ok prefix_bits ↦ ok (rule_of address prefix_bits)
        ]
      ]

  unfoldable pub parse_rules : List Bytes → Result CidrError (List Rule)
  unfolding parse_entry
  parse_rules [] = ok []
  parse_rules (entry ∷ entries) =
      let rest = parse_rules entries in
      elim (parse_entry entry) [
        | err e ↦ err e
        | ok rule ↦ elim rest [ err e ↦ err e | ok rules ↦ ok (rule ∷ rules) ]
      ]

module _ (inet_ntop_v4 inet_ntop_v6 : Bytes → Option Bytes) where
  unfoldable pub write_address_text : Bytes → Bool → Option Bytes
  write_address_text bytes as_ipv4 =
      if as_ipv4 then inet_ntop_v4 (drop 12 bytes) else inet_ntop_v6 bytes

  unfoldable pub to_string : PeerAddress → Bytes
  unfolding write_address_text is_ipv4_mapped
  to_string peer =
      let as_ipv4 = peer.is_v4 || is_ipv4_mapped peer.bytes in
      if peer.is_unix then codes "unix" else elim (write_address_text peer.bytes as_ipv4) [
        | none ↦ codes "unknown"
        | some text ↦
            if as_ipv4
            then text ++ (codes ":" ++ decimal peer.port)
            else codes "[" ++ (text ++ (codes "]:" ++ decimal peer.port))
      ]
