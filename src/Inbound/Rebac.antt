-- ===== src/Inbound/Rebac.antt =====
-- crates/lore-auth-inbound/src/grpcrebac.rs: the service that keeps the resources, and the list of the
-- callers that may use it. The type of a network, its `contains` and the parsers of networks and
-- addresses are parameters.
pub mod Delete
pub mod Allowlist
use lore_auth_bridge.Base.{
  String, Bool, true, false, not, ◌&&◌, string_eq, if◌then◌else◌, Option, none, some, List, [], ◌∷◌,
  Result, ok, err, not_found, any, is_empty_str, has_prefix, trim, contains_str, ℕ, suc, concat,
}
use lore_auth_bridge.Inbound.Reply.{
  Reply, accept, reject, Handler, answer, refuse, require, call, observe, ◌>>=◌, ◌>>◌,
}
use lore_auth_bridge.Inbound.Status.{
  Status, code_invalid_argument, code_internal, code_permission_denied,
}
use lore_auth_bridge.Inbound.Peer.{IpAddr, v4, v6, peer_ip_from_request}
use lore_auth_bridge.Service.Resource
use lore_auth_bridge.Service.Resource.{ResourceService}

pub record CreateResourceRequest : Type 0 where
  pub resource_id : String
  pub resource_name : String

abbrev pub id_required : Status
id_required = record { code = code_invalid_argument; message = "resource_id is required" }

module _ {W : Type 0} (resources : ResourceService W) where
  unfoldable pub create_resource : CreateResourceRequest → Handler W Status (Unit {0})
  unfolding is_empty_str Resource.create_resource
  create_resource req = do
    require (not (is_empty_str req.resource_id)) id_required
    call (Resource.create_resource resources req.resource_id req.resource_name)
        (λ _. record { code = code_internal; message = "failed to create resource" })

  unfoldable pub delete_resource : String → Handler W Status (Unit {0})
  unfolding is_empty_str Resource.delete_resource
  delete_resource resource_id = do
    require (not (is_empty_str resource_id)) id_required
    result ← observe (Resource.delete_resource resources resource_id)
    elim result [
      | ok _ ↦ answer tt
      | err not_found ↦ answer tt
      | err _ ↦ refuse (record { code = code_internal; message = "failed to delete resource" })
    ]

module _ (IpNet : Type 0) where
  unfoldable pub peer_allowed : (IpNet → IpAddr → Bool) → Option IpAddr → List IpNet → Bool
  unfolding any
  peer_allowed covers none prefixes = false
  peer_allowed covers (some addr) prefixes = any (λ prefix. covers prefix addr) prefixes

  -- `RebacPeerAllowlistService::call`, at the request's path and the address of its connection; `inner`
  -- is the service behind it.
  unfoldable pub guarded_call :
      {W A : Type 0}
      → (IpNet → IpAddr → Bool)
      → List IpNet
      → String
      → Option IpAddr
      → Handler W Status A
      → Handler W Status A
  unfolding has_prefix peer_allowed peer_ip_from_request
  guarded_call covers prefixes path remote inner =
      if has_prefix "/ucs.auth.RebacApi/" path
        && not (peer_allowed covers (peer_ip_from_request remote) prefixes)
      then refuse
          (record { code = code_permission_denied; message = "rebac caller is not allowed" })
      else inner

  -- `parse_allowed_peer_cidr`: a network, or an address alone, which is the network of its full length.
  unfoldable pub parse_allowed_peer_cidr :
      (String → Reply String IpNet)
      → (String → Reply String IpAddr)
      → (IpAddr → ℕ → Reply String IpNet)
      → String
      → Reply String IpNet
  unfolding trim is_empty_str contains_str
  parse_allowed_peer_cidr parse_net parse_addr new_net untrimmed =
      let value = trim untrimmed in
      if is_empty_str value
      then reject "CIDR must not be empty"
      else if contains_str value "/"
      then parse_net value
      else elim (parse_addr value) [
        | reject e ↦ reject e
        | accept (v4 n) ↦ new_net (v4 n) 32
        | accept (v6 n) ↦ new_net (v6 n) 128
      ]

  -- `parse_allowed_peer_cidrs` from the entry `index` on; `show` is the `Display` of a number.
  unfoldable pub parse_allowed_peer_cidrs :
      (ℕ → String) → (String → Reply String IpNet) → ℕ → List String → Reply String (List IpNet)
  parse_allowed_peer_cidrs show parse index [] = accept []
  parse_allowed_peer_cidrs show parse index (value ∷ rest) =
      let others = parse_allowed_peer_cidrs show parse (suc index) rest in
      elim (parse value) [
        | reject e ↦ reject (concat ("entry " ∷ show index ∷ ": " ∷ e ∷ []))
        | accept net ↦ elim others [ reject e ↦ reject e | accept nets ↦ accept (net ∷ nets) ]
      ]
