-- ===== src/Adapters/Registry.antt =====
-- crates/lore-auth-adapters/src/idpregistry.rs and staticidp.rs: the identity providers by their ids,
-- and a provider with one fixed identity. A `BTreeMap` is the list of its entries by rising keys.
pub mod Register
use lore_auth_bridge.Base.{
  ℕ, String, Bool, true, false, not, ◌==◌, string_eq, if◌then◌else◌, Option, none, some, List, [],
  ◌∷◌, map, values, Result, ok, err, invalid_argument, CoreError, HashMap, get, is_empty_str, trim,
  str_leb, concat, Act, pure, lift, guard, ◌>>=◌, ◌>>◌,
}
use lore_auth_bridge.Model.{ExternalIdentity, default_external_identity, LoginTrustPolicy}
use lore_auth_bridge.Service.Ports.{
  IdentityProvider, IdentityProviderDescriptor, BeginAuthRequest, BeginAuthResult,
  CompleteAuthRequest,
}

pub record Registry (W : Type 0) : Type 0 where
  pub default_id : String
  pub by_id : HashMap String (IdentityProvider W)

unfoldable pub new_registry : {W : Type 0} → String → Registry W
new_registry default_id = record { default_id = default_id; by_id = [] }

-- `BTreeMap::insert` of a key that is not there.
unfoldable pub insert_sorted : {V : Type 0} → HashMap String V → String → V → HashMap String V
unfolding str_leb
insert_sorted [] k v = (k, v) ∷ []
insert_sorted ((j, u) ∷ m) k v =
    let rest = insert_sorted m k v in if str_leb k j then (k, v) ∷ (j, u) ∷ m else (j, u) ∷ rest

-- `debug_str` is the `{:?}` of a text.
unfoldable pub register :
    {W : Type 0}
    → (String → String)
    → Registry W
    → IdentityProvider W
    → Result (Unit {0}) × Registry W
unfolding is_empty_str get insert_sorted
register debug_str registry provider =
    if is_empty_str provider.descriptor.id
    then (err (invalid_argument "idp registry: provider id is required"), registry)
    else elim (get registry.by_id provider.descriptor.id) [
      | some _ ↦ (
        err (
            invalid_argument (
              concat
                ("idp registry: duplicate provider id " ∷ debug_str provider.descriptor.id ∷ []))),
        registry,
      )
      | none ↦ (
        ok tt,
        record registry { by_id = insert_sorted registry.by_id provider.descriptor.id provider },
      )
    ]

unfoldable pub get_provider : {W : Type 0} → Registry W → String → Option (IdentityProvider W)
unfolding get
get_provider registry id = get registry.by_id id

unfoldable pub list_providers : {W : Type 0} → Registry W → List IdentityProviderDescriptor
list_providers registry = map (λ provider. provider.descriptor) (values registry.by_id)

pub record StaticConfig : Type 0 where
  pub provider_id : String
  pub display_name : String
  pub issuer : String
  pub subject : String
  pub email : String
  pub email_verified : Bool
  pub name : String
  pub picture_url : String
  pub hosted_domain : String

pub record StaticProvider : Type 0 where
  pub id : String
  pub display_name : String
  pub identity : ExternalIdentity

-- `Provider::new`.
unfoldable pub new_provider : StaticConfig → Result StaticProvider
unfolding trim is_empty_str
new_provider config =
    if is_empty_str (trim config.provider_id)
    then err (invalid_argument "staticidp: provider id is required")
    else if is_empty_str (trim config.issuer)
    then err (invalid_argument "staticidp: issuer is required")
    else if is_empty_str (trim config.subject)
    then err (invalid_argument "staticidp: subject is required")
    else ok (record {
      id = trim config.provider_id;
      display_name =
          if is_empty_str (trim config.display_name)
          then trim config.provider_id
          else trim config.display_name;
      identity = record default_external_identity {
        provider_id = trim config.provider_id;
        issuer = config.issuer;
        subject = config.subject;
        subject_strategy = "oidc_sub";
        email = config.email;
        email_verified = config.email_verified;
        display_name = config.name;
        picture_url = config.picture_url;
        hosted_domain = config.hosted_domain;
      };
    })

unfoldable pub static_descriptor : LoginTrustPolicy → StaticProvider → IdentityProviderDescriptor
static_descriptor default_policy provider = record {
  id = provider.id;
  provider_type = "static";
  display_name = provider.display_name;
  issuer = provider.identity.issuer;
  trust_policy = default_policy;
}

-- `begin_auth`; `callback_url` parses a URL and appends the two pairs to its query.
unfoldable pub static_begin_auth :
    {W : Type 0}
    → (String → List (String × String) → Result String)
    → BeginAuthRequest
    → Act W BeginAuthResult
static_begin_auth callback_url req = do
  redirect_url ←
      lift (callback_url req.redirect_url (("state", req.state) ∷ ("code", "static") ∷ []))
  pure (record { redirect_url = redirect_url; private_state = [] })

unfoldable pub static_complete_auth :
    {W : Type 0} → StaticProvider → CompleteAuthRequest → Act W ExternalIdentity
static_complete_auth provider req = do
  guard (req.code == "static") (invalid_argument "staticidp: invalid callback code")
  pure provider.identity
