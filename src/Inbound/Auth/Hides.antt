-- ===== src/Inbound/Auth/Hides.antt =====
-- What a caller of the handler `exchange_user_token_for_multiresource_token` learns.
use lore_auth_bridge.Base.{
  String, ◌≡◌, refl, false, List, [], ◌∷◌, In, none, some, ok, is_empty, is_empty_str, arith,
}
use lore_auth_bridge.Model.{VerifiedAuthn}
use lore_auth_bridge.Memory.State.{World}
use lore_auth_bridge.Service.Login.{LoginService}
use lore_auth_bridge.Service.Permission.{PermissionService}
use lore_auth_bridge.Service.Token.{TokenConfig, verify_authn}
use lore_auth_bridge.Service.Wiring.{memory_tokens}
use lore_auth_bridge.Service.Token.Authorize.{MayWrite}
use lore_auth_bridge.Inbound.Reply.{reject}
use lore_auth_bridge.Inbound.Status.Hides.{not_authorized, exchange_hides_resources}
use lore_auth_bridge.Inbound.Auth.{
  UrcAuthServer, Request, bearer_from_request, authn_from_request,
  exchange_user_token_for_multiresource_token,
}

-- A list with a member is not empty.
In-nonempty : (id : String) (ids : List String) → In id ids → is_empty ids ≡ false
In-nonempty id [] i = absurd i
In-nonempty id (x ∷ xs) i = refl

module _ (cfg : TokenConfig) (login : LoginService World)
    (permissions : PermissionService World) where
  abbrev pub exchange_server : UrcAuthServer World
  exchange_server = record { login = login; tokens = memory_tokens cfg; permissions = permissions }

  -- A caller with a valid token of a known user that asks for a token for several resources gets one and
  -- the same status wherever one of them is missing or is there and the user may not write it.
  pub exchange_call_hides :
      (request : Request (List String)) (bearer : String) (authn : VerifiedAuthn) (w v : World)
      (id : String)
      → bearer_from_request request ≡ some bearer
      → verify_authn (memory_tokens cfg) bearer w ≡ (ok authn, v)
      → is_empty_str authn.principal.user_id ≡ false
      → In id request.message
      → ¬ MayWrite v authn.principal.user_id id
      → (exchange_user_token_for_multiresource_token exchange_server request w).0
        ≡ reject not_authorized
  unfolding exchange_user_token_for_multiresource_token authn_from_request
  exchange_call_hides request bearer authn w v id b h u i m =
      let (e, q, s) = exchange_hides_resources cfg authn request.message none v id u i m in
      ground (arith, b, h, q, s, In-nonempty id request.message i)
