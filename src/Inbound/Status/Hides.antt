-- ===== src/Inbound/Status/Hides.antt =====
-- What a caller of the token exchange learns from the status of a failure.
use lore_auth_bridge.Base.{
  String, ◌≡◌, refl, inl, inr, false, List, In, Option, Duration, err, CoreError, is_empty_str,
}
use lore_auth_bridge.Model.{VerifiedAuthn}
use lore_auth_bridge.Memory.State.{World}
use lore_auth_bridge.Service.Token.{TokenConfig, exchange_authz}
use lore_auth_bridge.Service.Wiring.{memory_tokens}
use lore_auth_bridge.Service.Token.Authorize.{MayWrite, IsRefusal}
use lore_auth_bridge.Service.Token.Exchange.{exchange_authz_refused}
use lore_auth_bridge.Inbound.Status.{Status, code_permission_denied, resource_token_exchange_status}

abbrev pub not_authorized : Status
not_authorized = record { code = code_permission_denied; message = "resource not authorized" }

refusal_status : (e : CoreError) → IsRefusal e → resource_token_exchange_status e ≡ not_authorized
unfolding resource_token_exchange_status
refusal_status e (inl q) = rw q refl
refusal_status e (inr q) = rw q refl

-- A token exchange for a known user hides whether a resource exists: wherever one of the resources
-- asked for is missing, or is there and the user may not write it, the exchange fails and the caller
-- gets one and the same status.
pub exchange_hides_resources :
    (cfg : TokenConfig) (authn : VerifiedAuthn) (ids : List String) (ttl : Option Duration)
    (w : World) (id : String)
    → is_empty_str authn.principal.user_id ≡ false
    → In id ids
    → ¬ MayWrite w authn.principal.user_id id
    → (e : CoreError) × ((exchange_authz (memory_tokens cfg) authn ids ttl w).0 ≡ err e)
      × (resource_token_exchange_status e ≡ not_authorized)
exchange_hides_resources cfg authn ids ttl w id e i refused =
    let (x, q, k) = exchange_authz_refused cfg authn ids ttl w id e i refused in
    (x, q, refusal_status x k)
