-- ===== src/Inbound/Rebac/Allowlist.antt =====
-- The list of the callers that grpcrebac.rs lets through to the resources.
use lore_auth_bridge.Base.{
  String, ◌≡◌, refl, inl, inr, Bool, true, false, Option, none, some, List, [], ◌∷◌, ◌⊎◌,
  if◌then◌else◌, In, any_of_In, any-In, Bool-cases, has_prefix, nat_eq,
}
use lore_auth_bridge.Inbound.Reply.{Handler, Reply, reject}
use lore_auth_bridge.Inbound.Status.{Status, code_permission_denied}
use lore_auth_bridge.Inbound.Peer.{IpAddr, peer_ip_from_request}
use lore_auth_bridge.Inbound.Peer.Address.{CountsAs, peer_ip_from_request_iff}
use lore_auth_bridge.Inbound.Rebac.{peer_allowed, guarded_call}

abbrev pub not_allowed : Status
not_allowed = record { code = code_permission_denied; message = "rebac caller is not allowed" }

-- A call as it meets the list: its path, the address of its connection, and what the service behind
-- the list does with it.
pub record GuardedCall (W A : Type 0) : Type 0 where
  pub path : String
  pub remote : Option IpAddr
  pub inner : Handler W Status A

module _ (IpNet : Type 0) (covers : IpNet → IpAddr → Bool) (prefixes : List IpNet) where
  -- No network of the list has the peer, or its address is not known.
  abbrev pub IsStranger : Option IpAddr → Type 0
  IsStranger remote =
      (net : IpNet)
      → In net prefixes
      → (addr : IpAddr) → CountsAs remote addr
      → covers net addr ≡ false

  -- Some network of the list has the peer.
  abbrev pub IsListed : Option IpAddr → Type 0
  IsListed remote =
      (net : IpNet) × (addr : IpAddr) × In net prefixes
      × CountsAs remote addr
      × (covers net addr ≡ true)

  peer_allowed-IsListed :
      (remote : Option IpAddr)
      → peer_allowed IpNet covers (peer_ip_from_request remote) prefixes ≡ true
      → IsListed remote
  unfolding peer_allowed
  peer_allowed-IsListed remote h =
      let (net, addr, i, q, e) = by_peer (peer_ip_from_request remote) h in
      (net, addr, i, (peer_ip_from_request_iff remote addr).0 q, e)
    where
      by_peer :
          (peer : Option IpAddr)
          → peer_allowed IpNet covers peer prefixes ≡ true
          → (net : IpNet) × (addr : IpAddr) × In net prefixes
            × (peer ≡ some addr)
            × (covers net addr ≡ true)
      by_peer none k = cc
      by_peer (some addr) k =
          let (net, i, q) = any-In (λ net. covers net addr) prefixes k in (net, addr, i, refl, q)

  peer_allowed-IsStranger :
      (remote : Option IpAddr)
      → peer_allowed IpNet covers (peer_ip_from_request remote) prefixes ≡ false
      → IsStranger remote
  unfolding peer_allowed
  peer_allowed-IsStranger remote h net i addr c = elim (Bool-cases (covers net addr)) [
    | inl e ↦
        let found = any_of_In (λ n. covers n addr) prefixes net i e in
        let q = (peer_ip_from_request_iff remote addr).1 c in cc (rw (q, peer_allowed) at h, found)
    | inr e ↦ e
  ]

  module _ {W A : Type 0} where
    abbrev pub guarded : GuardedCall W A → Handler W Status A
    guarded c = guarded_call IpNet covers prefixes c.path c.remote c.inner

    -- The replies to a series of calls, and the state after it.
    unfoldable pub serve_all : List (GuardedCall W A) → W → List (Reply Status A) × W
    serve_all [] w = ([], w)
    serve_all (c ∷ cs) w =
        let (reply, v) = guarded c w in let (replies, u) = serve_all cs v in (reply ∷ replies, u)

    -- How a series of calls goes: one that is of another service, or whose peer is listed, reaches the
    -- service behind the list; one of a stranger for the resources is refused, and leaves no trace.
    pub data Guards : W → List (GuardedCall W A) → List (Reply Status A) → W → Type 0 where
      done : {w : W} → Guards w [] [] w
      served :
          {w v : W} {replies : List (Reply Status A)}
          → (c : GuardedCall W A) (cs : List (GuardedCall W A))
          → (has_prefix "/ucs.auth.RebacApi/" c.path ≡ false) ⊎ IsListed c.remote
          → Guards (c.inner w).1 cs replies v
          → Guards w (c ∷ cs) ((c.inner w).0 ∷ replies) v
      refused :
          {w v : W} {replies : List (Reply Status A)}
          → (c : GuardedCall W A) (cs : List (GuardedCall W A))
          → has_prefix "/ucs.auth.RebacApi/" c.path ≡ true
          → IsStranger c.remote
          → Guards w cs replies v
          → Guards w (c ∷ cs) (reject not_allowed ∷ replies) v

    guarded-elsewhere :
        (c : GuardedCall W A) (w : W)
        → has_prefix "/ucs.auth.RebacApi/" c.path ≡ false
        → guarded c w ≡ c.inner w
    unfolding guarded_call
    guarded-elsewhere c w p = rw p refl

    guarded-peer :
        (c : GuardedCall W A) (w : W) (allowed : Bool)
        → has_prefix "/ucs.auth.RebacApi/" c.path ≡ true
        → peer_allowed IpNet covers (peer_ip_from_request c.remote) prefixes ≡ allowed
        → guarded c w ≡ (if allowed then c.inner w else (reject not_allowed, w))
    unfolding guarded_call
    guarded-peer c w true p h = rw (p, h) refl
    guarded-peer c w false p h = rw (p, h) refl

    -- In a series of calls, over any state of the service behind the list, each call is answered by that
    -- service and changes the state as that service does, where it is not for the resources or a network
    -- of the list has its peer, an IPv4-mapped IPv6 address counting as the IPv4 one; each other call is
    -- refused and changes nothing.
    pub serve_all-Guards :
        (cs : List (GuardedCall W A)) (w : W) → Guards w cs (serve_all cs w).0 (serve_all cs w).1
    unfolding serve_all
    serve_all-Guards [] w = done
    serve_all-Guards (c ∷ cs) w = elim (Bool-cases (has_prefix "/ucs.auth.RebacApi/" c.path)) [
      | inr p ↦
          rw (guarded-elsewhere c w p) (served c cs (inl p) (serve_all-Guards cs (c.inner w).1))
      | inl p ↦
          elim (Bool-cases (peer_allowed IpNet covers (peer_ip_from_request c.remote) prefixes)) [
            | inl h ↦ rw (guarded-peer c w true p h) (
                served c cs (inr (peer_allowed-IsListed c.remote h))
                  (serve_all-Guards cs (c.inner w).1))
            | inr h ↦
                rw (guarded-peer c w false p h)
                  (refused c cs p (peer_allowed-IsStranger c.remote h) (serve_all-Guards cs w))
          ]
    ]
