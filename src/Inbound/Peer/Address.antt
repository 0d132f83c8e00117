-- ===== src/Inbound/Peer/Address.antt =====
-- The address by which peer.rs knows a caller, spelled out.
use lore_auth_bridge.Base.{
  ℕ, ◌+◌, ◌*◌, ◌/◌, ◌%◌, ◌^◌, ◌<◌, ◌≡◌, ◌⊎◌, ◌↔◌, refl, sym, subst, ap, ◌∙◌, inl, inr, true, ◌==◌,
  nat_eq, Bool-cases, Option, none, some, arith,
}
use lore_auth_bridge.Inbound.Peer.{
  IpAddr, v4, v6, to_ipv4_mapped, normalize_ip, peer_ip_from_request,
}

-- ::ffff:0:0/96 at the IPv4 address `m`.
abbrev pub IsMapped : ℕ → ℕ → Type 0
IsMapped n m = (m < 2 ^ 32) × (n ≡ 0xffff * 2 ^ 32 + m)

-- An IPv6 address that stands for an IPv4 one counts as that one, every other address as itself.
abbrev pub CountsAs : Option IpAddr → IpAddr → Type 0
CountsAs none addr = ⊥
CountsAs (some (v4 n)) addr = addr ≡ v4 n
CountsAs (some (v6 n)) addr =
    ((m : ℕ) × IsMapped n m × (addr ≡ v4 m)) ⊎ (((m : ℕ) → ¬ IsMapped n m) × (addr ≡ v6 n))

pub normalize_ip-mapped : (n : ℕ) → n < 2 ^ 32 → normalize_ip (v6 (0xffff * 2 ^ 32 + n)) ≡ v4 n
unfolding normalize_ip to_ipv4_mapped
normalize_ip-mapped n h = ground arith

normalize_ip-other : (n : ℕ) → ((m : ℕ) → ¬ IsMapped n m) → normalize_ip (v6 n) ≡ v6 n
unfolding normalize_ip to_ipv4_mapped
normalize_ip-other n apart = elim (Bool-cases (n / 2 ^ 32 == 0xffff)) [
  | inl e ↦ absurd (apart (n % 2 ^ 32) (ground arith, ground arith))
  | inr e ↦ ground (arith, e)
]

normalize_ip-CountsAs : (n : ℕ) → CountsAs (some (v6 n)) (normalize_ip (v6 n))
unfolding normalize_ip to_ipv4_mapped
normalize_ip-CountsAs n = elim (Bool-cases (n / 2 ^ 32 == 0xffff)) [
  | inl e ↦ inl (n % 2 ^ 32, (ground arith, ground arith), ground (arith, e))
  | inr e ↦ inr (λ m h. cc (e, quotient m h), ground (arith, e))
]
  where
    quotient : (m : ℕ) → IsMapped n m → (n / 2 ^ 32 == 0xffff) ≡ true
    quotient m h = ground arith

pub peer_ip_from_request_iff :
    (remote : Option IpAddr) (addr : IpAddr)
    → (peer_ip_from_request remote ≡ some addr) ↔ CountsAs remote addr
unfolding peer_ip_from_request normalize_ip
peer_ip_from_request_iff none addr = (λ q. cc q, λ z. absurd z)
peer_ip_from_request_iff (some (v4 n)) addr = (λ q. forward q, λ q. rw q backward)
  where
    forward : some (normalize_ip (v4 n)) ≡ some addr → addr ≡ v4 n
    forward q = cc q

    backward : some (normalize_ip (v4 n)) ≡ some (v4 n)
    backward = refl
peer_ip_from_request_iff (some (v6 n)) addr = (forward, backward)
  where
    forward : some (normalize_ip (v6 n)) ≡ some addr → CountsAs (some (v6 n)) addr
    forward q =
        let same : normalize_ip (v6 n) ≡ addr = cc q in
        subst (CountsAs (some (v6 n))) same (normalize_ip-CountsAs n)

    backward : CountsAs (some (v6 n)) addr → some (normalize_ip (v6 n)) ≡ some addr
    backward (inl (m, (l, e), a)) =
        ap some (ap (λ t. normalize_ip (v6 t)) e ∙ normalize_ip-mapped m l ∙ sym a)
    backward (inr (apart, a)) = ap some (normalize_ip-other n apart ∙ sym a)
