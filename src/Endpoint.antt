-- ===== src/Endpoint.antt =====
-- asio::ip::tcp::endpoint, an IPv4 address and a port, in asio's order: by the address, then the port.
use r_nat.Common.{ℕ, Bool, true, ◌&&◌, ◌||◌, ◌==◌, ltb, ◌≡◌, ◌↔◌, arith, Key}

pub record Endpoint : Type 0 where
  pub address : ℕ
  pub port : ℕ

abbrev pub same_endpoint : Endpoint → Endpoint → Bool
same_endpoint a b = a.address == b.address && a.port == b.port

abbrev pub endpoint_before : Endpoint → Endpoint → Bool
endpoint_before a b = ltb a.address b.address || (a.address == b.address && ltb a.port b.port)

pub same_endpoint_iff : (a b : Endpoint) → (same_endpoint a b ≡ true) ↔ (a ≡ b)
same_endpoint_iff a b = ground arith

instance abbrev pub endpoint_key : Key Endpoint
endpoint_key = record {
  same = same_endpoint;
  before = endpoint_before;
  same_iff = same_endpoint_iff;
}
