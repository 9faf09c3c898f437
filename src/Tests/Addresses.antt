-- ===== src/Tests/Addresses.antt =====
-- The allow list, run on concrete inputs. The two functions read a few addresses only.
use erikslund_http_embedded.Cidr.Entry.{Holds, allows_iff}
use erikslund_http_embedded.Prelude.{
  ◌≡◌, refl, subst, ◌↔◌, ◌⊎◌, inl, inr, true, false, Option, none, some, List, [], ◌∷◌, ◌++◌, arith,
  ltb, if◌then◌else◌, Bool-cases, Bytes, codes, bytes_eq, contains_byte, cut, length, replicate,
  All, every, ok, err, Some,
}
use erikslund_http_embedded.Cidr.Network.{IsAddress, IsByte, address_bit}
use erikslund_http_embedded.Peer.{PeerAddress}
use erikslund_http_embedded.Cidr.{
  Rule, bad_address, bad_prefix_length, clear_host_bits, is_ipv4_mapped, is_ipv6_loopback,
  is_loopback, malformed_entry, parse_address, parse_entry, parse_prefix, parse_rules, prefix_of,
  rule_of, same_before, some_match, to_string, write_address_text, zero_before, zero_from, matches,
  allows,
}
use erikslund_http_embedded.Cidr.Clear.{clear_host_bits_lem}
use erikslund_http_embedded.Request.Length.{decimal_value}
use erikslund_http_embedded.Text.Decimal.{digits_from, decimal}
use erikslund_http_embedded.Request.Chars.{is_decimal_digit}

abbrev pton_v4 : Bytes → Option Bytes
pton_v4 text = if bytes_eq text (codes "10.0.0.7") then some (10 ∷ 0 ∷ 0 ∷ 7 ∷ []) else none

abbrev pton_v6 : Bytes → Option Bytes
pton_v6 text = if bytes_eq text (codes "::1") then some (replicate 15 0 ++ (1 ∷ [])) else none

pton_v4-length :
    (text address : Bytes) → pton_v4 text ≡ some address → (length address ≡ 4) × All IsByte address
pton_v4-length text address h = elim (Bool-cases (bytes_eq text (codes "10.0.0.7"))) [
  | inl e ↦
      let same : 10 ∷ 0 ∷ 0 ∷ 7 ∷ [] ≡ address = ground arith in
      subst (λ z. (length z ≡ 4) × All IsByte z) same
        (refl, (omega arith, (omega arith, (omega arith, (omega arith, tt)))))
  | inr e ↦ absurd (ground arith)
]

pton_v6-length :
    (text address : Bytes)
    → pton_v6 text ≡ some address
    → (length address ≡ 16) × All IsByte address
pton_v6-length text address h = elim (Bool-cases (bytes_eq text (codes "::1"))) [
  | inl e ↦
      let same : replicate 15 0 ++ (1 ∷ []) ≡ address = ground arith in
      subst (λ z. (length z ≡ 16) × All IsByte z) same (refl, ground arith)
  | inr e ↦ absurd (ground arith)
]

address_runs : Unit {0}
unfolding bytes_eq cut contains_byte every is_decimal_digit decimal_value zero_before is_ipv4_mapped
    is_ipv6_loopback zero_from clear_host_bits same_before matches some_match allows is_loopback
    parse_prefix rule_of prefix_of parse_address parse_entry parse_rules write_address_text
    to_string digits_from decimal
address_runs = tt

abbrev office : List Bytes
office = codes "10.0.0.7/28" ∷ codes "::1" ∷ []

abbrev office_rules : List Rule
office_rules =
    record {
      network = replicate 10 0 ++ (0xFF ∷ 0xFF ∷ 10 ∷ 0 ∷ 0 ∷ 0 ∷ []);
      prefix_bits = 124;
      is_v4 = true;
    }
    ∷ (record { network = replicate 15 0 ++ (1 ∷ []); prefix_bits = 128; is_v4 = false } ∷ [])

office_is_parsed : parse_rules pton_v4 pton_v6 office ≡ ok office_rules
unfolding address_runs
office_is_parsed = refl

abbrev colleague : PeerAddress
colleague = record {
  bytes = replicate 10 0 ++ (0xFF ∷ 0xFF ∷ 10 ∷ 0 ∷ 0 ∷ 15 ∷ []);
  port = 8080;
  is_v4 = true;
  is_unix = false;
}

colleague-IsAddress : IsAddress colleague.bytes
colleague-IsAddress = record { sixteen = refl; small = ground arith }

allows_example : (allows office_rules colleague ≡ true) ↔ (
    (office ≡ [])
    ⊎ ((colleague.is_unix ≡ true) ⊎ Some (Holds pton_v4 pton_v6 colleague.bytes) office))
allows_example =
    allows_iff pton_v4 pton_v6 pton_v4-length pton_v6-length office office_rules colleague
      office_is_parsed colleague-IsAddress

clear_host_bits_example :
    address_bit (clear_host_bits colleague.bytes 124) 125
    ≡ (if ltb 125 124 then address_bit colleague.bytes 125 else 0)
clear_host_bits_example =
    clear_host_bits_lem colleague.bytes 124 125 colleague-IsAddress.sixteen
      colleague-IsAddress.small (omega arith)

address_tests :
    (allows office_rules colleague ≡ true)
    × (allows office_rules (record colleague { bytes = replicate 16 0 }) ≡ false)
    × (is_loopback colleague ≡ false)
    × (parse_rules pton_v4 pton_v6 (codes "10.0.0.7/33" ∷ []) ≡ err bad_prefix_length)
    × (parse_rules pton_v4 pton_v6 (codes "10.0.0.7/" ∷ []) ≡ err bad_prefix_length)
    × (parse_rules pton_v4 pton_v6 (codes "/8" ∷ []) ≡ err malformed_entry)
    × (parse_rules pton_v4 pton_v6 (codes "10.0.0.8" ∷ []) ≡ err bad_address)
unfolding address_runs
address_tests = (refl, refl, refl, refl, refl, refl, refl)
