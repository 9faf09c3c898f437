-- ===== src/Text/Etag.antt =====
-- The entity tag of a body: `fnv1a_64` and `weak_etag_buffer` of include/erikslund/http/text.hpp.
use erikslund_http_embedded.Prelude.{
  ℕ, bit_xor, zero, suc, ◌+◌, ◌-◌, ◌*◌, ◌/◌, ◌%◌, ◌^◌, [], ◌∷◌, ltb, if◌then◌else◌, Bytes, codes,
  ◌++◌,
}

abbrev pub fnv_offset_basis_64 : ℕ
fnv_offset_basis_64 = 14695981039346656037

abbrev pub fnv_prime_64 : ℕ
fnv_prime_64 = 1099511628211

-- The loop of `fnv1a_64`, on 64 bits.
unfoldable pub hash_from : ℕ → Bytes → ℕ
hash_from hash [] = hash
hash_from hash (character ∷ input) =
    hash_from (bit_xor hash character * fnv_prime_64 % 2 ^ 64) input

unfoldable pub fnv1a_64 : Bytes → ℕ
unfolding hash_from
fnv1a_64 input = hash_from fnv_offset_basis_64 input

unfoldable pub hex_digit : ℕ → ℕ
hex_digit digit = if ltb digit 10 then b'0' + digit else b'a' + (digit - 10)

-- The digits of the lowest `count` hexadecimal places, the highest first.
unfoldable pub hex_places : ℕ → ℕ → Bytes
unfolding hex_digit
hex_places zero hash = []
hex_places (suc count) hash = hex_digit (hash / 2 ^ (count * 4) % 16) ∷ hex_places count hash

unfoldable pub weak_etag_buffer : ℕ → Bytes
unfolding hex_places
weak_etag_buffer hash = codes "W/\"" ++ (hex_places 16 hash ++ codes "\"")

unfoldable pub weak_etag : Bytes → Bytes
unfolding weak_etag_buffer fnv1a_64
weak_etag body = weak_etag_buffer (fnv1a_64 body)
