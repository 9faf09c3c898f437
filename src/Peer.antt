-- ===== src/Peer.antt =====
-- include/erikslund/http/peer_address.hpp: the address of a connection's peer.
use erikslund_http_embedded.Prelude.{ℕ, Bool, false, Bytes, replicate}

abbrev pub ipv6_byte_count : ℕ
ipv6_byte_count = 16

pub record PeerAddress : Type 0 where
  pub bytes : Bytes
  pub port : ℕ
  pub is_v4 : Bool
  pub is_unix : Bool

abbrev pub no_peer : PeerAddress
no_peer = record { bytes = replicate 16 0; port = 0; is_v4 = false; is_unix = false }
