-- ===== src/Tests/Services.antt =====
-- The theorems of the audited store and of the token exchange at the small store.
use lore_auth_bridge.Base.{
  pure, Result, ◌≢◌, CoreError, ℕ, ◌+◌, arith, some, err, permission_denied, not_found, String, ◌≡◌,
  refl, false, List, [], ◌∷◌, none, ok, In, inl, inr, is_empty, is_empty_str, from_secs, subst, sym,
  get, string_eq,
}
use lore_auth_bridge.Model.{
  VerifiedAuthn, SignedToken, default_user, IssuedToken, default_issued_token,
}
use lore_auth_bridge.Memory.State.{World}
use lore_auth_bridge.Memory.Nesting.{widen}
use lore_auth_bridge.Memory.Grants.{allowed}
use lore_auth_bridge.Memory.Audited.Log.{Refines}
use lore_auth_bridge.Memory.Audited.Refines.{
  add_group_group, IsThere, plain_call, audited_call, audited_call-Refines,
}
use lore_auth_bridge.Service.Token.{TokenConfig, exchange_authz}
use lore_auth_bridge.Service.Wiring.{memory_tokens}
use lore_auth_bridge.Service.Token.Authorize.{MayWrite}
use lore_auth_bridge.Service.Token.Exchange.{
  IsIssued, exchange_authz_sound, exchange_authz_complete,
}
use lore_auth_bridge.Memory.Helpers.{resolve_user_id}
use lore_auth_bridge.Memory.Accounts
use lore_auth_bridge.Memory.Accounts.{principal_by_authn_token_jti}
use lore_auth_bridge.Service.Token.{mint_authn, manual_mint_authz}
use lore_auth_bridge.Service.Token.Disabled.{
  IsDisabled, manual_refusal, no_mint_after_disable, no_principal_after_disable,
}
use lore_auth_bridge.Inbound.RateLimit.{Limiter, Bucket, Buckets}
use lore_auth_bridge.Inbound.RateLimit.Window.{passed, calls_of, least, passed_while_open}
use lore_auth_bridge.Memory.Devices.Steps.{expire}
use lore_auth_bridge.Memory.Devices.History.{run}
use lore_auth_bridge.Service.Ports.{DeviceCodeGenerator}
use lore_auth_bridge.Service.Device.{
  DeviceConfig, DeviceService, TokenResult, default_token_result, redeem,
}
use lore_auth_bridge.Service.Device.Redeem.{memory_device_service, redeem_once}
use lore_auth_bridge.Inbound.Status.{resource_token_exchange_status}
use lore_auth_bridge.Inbound.Status.Hides.{not_authorized, exchange_hides_resources}
use lore_auth_bridge.Tests.{test_world, test_resource, test_device}

-- `devs` is nested in `all` already, and is nested there again.
audited_call-Refines_example :
    Refines
      (IsThere (add_group_group "all" "devs") test_world)
      "root"
      "group.nest.add"
      "group"
      test_world
      (plain_call (add_group_group "all" "devs") test_world)
      (audited_call "root" (add_group_group "all" "devs") test_world)
audited_call-Refines_example = audited_call-Refines "root" (add_group_group "all" "devs") test_world

abbrev pub config : TokenConfig
config = record {
  issuer = "https://auth";
  audience = "lore" ∷ [];
  auth_service_audience = "auth";
  authn_ttl = from_secs 3600;
  authz_ttl = from_secs 900;
}

abbrev authn : VerifiedAuthn
authn = record {
  subject = "user:ann";
  principal = record {
    user_id = "ann";
    token_subject = "user:ann";
    token_idp = "bridge";
    display_name = "ann";
    preferred_username = "ann@example.com";
    groups = "devs" ∷ [];
  };
  user = default_user;
}

abbrev ids : List String
ids = "urc-game" ∷ []

-- Ann may write the repository as a member of `all`.
ann_writes : MayWrite test_world "ann" "urc-game"
unfolding get allowed widen
ann_writes = (test_resource, refl, refl)

all_write : (id : String) → In id ids → MayWrite test_world "ann" id
all_write id (inl e) = subst (MayWrite test_world "ann") (sym e) ann_writes
all_write id (inr i) = absurd i

named : is_empty_str "ann" ≡ false
unfolding is_empty_str
named = refl

exchange_authz_complete_example :
    (signed : SignedToken) × (v : World) × (exchange_authz
        (memory_tokens config)
        authn
        ids
        none
        test_world
      ≡ (ok signed, v))
    × IsIssued v signed "ann"
exchange_authz_complete_example =
    exchange_authz_complete config authn ids none test_world named refl all_write

abbrev exchanged :
    (signed : SignedToken) × (v : World) × (exchange_authz
        (memory_tokens config)
        authn
        ids
        none
        test_world
      ≡ (ok signed, v))
    × IsIssued v signed "ann"
exchanged = exchange_authz_complete config authn ids none test_world named refl all_write

exchange_authz_sound_example :
    (is_empty_str "ann" ≡ false)
    × (is_empty ids ≡ false)
    × ((id : String) → In id ids → MayWrite test_world "ann" id)
exchange_authz_sound_example =
    exchange_authz_sound config authn ids none test_world exchanged.1 exchanged.0 exchanged.2

-- The store with a token of Ann's, before and after she is disabled.
abbrev pub ann_token : IssuedToken
ann_token = record default_issued_token {
  jti = "jti";
  kind = "authn";
  user_id = "ann";
  expires_at = 2000;
}

abbrev token_world : World
token_world = record test_world {
  state = record (test_world.state) { issued_tokens = ("jti", ann_token) ∷ [] };
}

abbrev disabled_world : World
disabled_world = (Accounts.disable_user "ann" token_world).1

disabled : Accounts.disable_user "ann" token_world ≡ (ok tt, disabled_world)
unfolding Accounts.disable_user
disabled = refl

resolved : resolve_user_id token_world.state "ann" ≡ ok "ann"
unfolding resolve_user_id
resolved = refl

kept : get disabled_world.state.issued_tokens "jti" ≡ some ann_token
unfolding get Accounts.disable_user
kept = refl

no_mint_after_disable_example :
    (id : String) × (resolve_user_id token_world.state "ann" ≡ ok id)
    × IsDisabled disabled_world id
    × (mint_authn (memory_tokens config) id none disabled_world
        ≡ (err permission_denied, disabled_world))
    × (manual_mint_authz
          (memory_tokens config)
          test_world.env.debug_str
          id
          "game"
          "reader"
          none
          disabled_world
        ≡ (err (manual_refusal test_world.env.debug_str "reader"), disabled_world))
no_mint_after_disable_example =
    no_mint_after_disable config test_world.env.debug_str "ann" "game" "reader" none token_world
      disabled_world disabled

no_principal_after_disable_example :
    (principal_by_authn_token_jti "jti" disabled_world).0 ≡ err not_found
no_principal_after_disable_example =
    no_principal_after_disable "ann" "ann" "jti" ann_token token_world disabled_world disabled
      resolved kept refl

-- A limiter of two calls, with a bucket that counts one.
abbrev limiter : Limiter
limiter = record { limit = 2; window = 100 }

abbrev bucket : Bucket
bucket = record { start = 1000; count = 1 }

abbrev buckets : Buckets
buckets = ("a", bucket) ∷ []

abbrev requests : List (String × ℕ)
requests = ("a", 1010) ∷ ("b", 1020) ∷ ("a", 1030) ∷ []

found_bucket : get buckets "a" ≡ some bucket
unfolding get
found_bucket = refl

passed_while_open_example :
    1 + passed limiter "a" requests buckets ≡ least 2 (1 + calls_of "a" requests)
passed_while_open_example =
    passed_while_open limiter "a" requests buckets bucket refl refl found_bucket (omega arith)
      (omega arith, (omega arith, (omega arith, tt)))

missing : ¬ MayWrite test_world "ann" "urc-none"
unfolding get
missing (r, e, f) = cc e

exchange_hides_resources_example :
    (e : CoreError) × ((exchange_authz
        (memory_tokens config)
        authn
        ("urc-game" ∷ "urc-none" ∷ [])
        none
        test_world).0
      ≡ err e)
    × (resource_token_exchange_status e ≡ not_authorized)
exchange_hides_resources_example =
    exchange_hides_resources config authn ("urc-game" ∷ "urc-none" ∷ []) none test_world "urc-none"
      named (inr (inl refl)) missing

abbrev device_config : DeviceConfig
device_config = record {
  public_base_url = "https://auth";
  auth_url = "ucs-auth://auth";
  device_code_ttl = from_secs 600;
  poll_interval = from_secs 5;
}

abbrev codes : DeviceCodeGenerator World
codes = record { device_code = pure "device-code"; user_code = pure "user-code" }

abbrev devices : DeviceService World
devices = memory_device_service device_config config codes

abbrev redeemed : Result TokenResult × World
redeemed = redeem devices test_world.env.debug_str test_device test_world

abbrev answer : Result TokenResult → TokenResult
answer (ok result) = result
answer (err _) = default_token_result

redeemed-ok : redeemed ≡ (ok (answer redeemed.0), redeemed.1)
unfolding redeem lore_auth_bridge.Memory.Resources.get_by_id Accounts.principal_by_user_id
    lore_auth_bridge.Memory.Resources.get_by_name lore_auth_bridge.Memory.Grants.can_access widen
    lore_auth_bridge.Memory.Resources.get_by_resource_id lore_auth_bridge.Memory.Tokens.sign_authz
    lore_auth_bridge.Memory.State.now_unix lore_auth_bridge.Memory.Tokens.record_issued
    lore_auth_bridge.Memory.Devices.consume_device_authorization
redeemed-ok = refl

redeem_once_example :
    redeem devices test_world.env.debug_str test_device (run redeemed.1 (expire "device" ∷ []))
    ≢ (ok default_token_result, redeemed.1)
redeem_once_example =
    redeem_once device_config config codes test_world.env.debug_str test_device
      (expire "device" ∷ []) test_world redeemed.1 redeemed.1 (answer redeemed.0)
      default_token_result redeemed-ok
