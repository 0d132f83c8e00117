-- ===== src/Inbound/Peer.antt =====
-- crates/lore-auth-inbound/src/peer.rs: the address of a caller. An address is the number that its
-- octets make.
pub mod Address
use lore_auth_bridge.Base.{
  ℕ, ◌/◌, ◌%◌, ◌^◌, ◌==◌, nat_eq, if◌then◌else◌, Option, none, some, String,
}

-- `std::net::IpAddr`.
pub data IpAddr : Type 0 where
  v4 v6 : ℕ → IpAddr

-- `Ipv6Addr::to_ipv4_mapped`: an address in ::ffff:0:0/96.
unfoldable pub to_ipv4_mapped : ℕ → Option ℕ
to_ipv4_mapped n = if n / 2 ^ 32 == 0xffff then some (n % 2 ^ 32) else none

unfoldable pub normalize_ip : IpAddr → IpAddr
unfolding to_ipv4_mapped
normalize_ip (v4 n) = v4 n
normalize_ip (v6 n) = elim (to_ipv4_mapped n) [ some m ↦ v4 m | none ↦ v6 n ]

-- `peer_ip_from_request`, of the address that the connection knows, if any.
unfoldable pub peer_ip_from_request : Option IpAddr → Option IpAddr
unfolding normalize_ip
peer_ip_from_request none = none
peer_ip_from_request (some addr) = some (normalize_ip addr)

-- `peer_key_from_request`; `show` is the `Display` of an address.
unfoldable pub peer_key_from_request : (IpAddr → String) → Option IpAddr → String
unfolding peer_ip_from_request
peer_key_from_request show remote = elim (peer_ip_from_request remote) [
  | none ↦ ""
  | some addr ↦ show addr
]
