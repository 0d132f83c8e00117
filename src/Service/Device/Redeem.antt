-- ===== src/Service/Device/Redeem.antt =====
-- The last part of `token` of service/device.rs over the in-memory store. Calls interleave: a device
-- is redeemed as it was read, and may have changed since.
use lore_auth_bridge.Base.{
  String, ◌≡◌, refl, ap, ◌∙◌, Bool, string_eq, none, List, ok, ◌≢◌, ◌||◌,
  device_incomplete_authorization, is_empty_str, not, Act, guard, pure, ◌>>=◌, >>=-eq-ok, get,
  arith,
}
use lore_auth_bridge.Model.{DeviceAuthorization}
use lore_auth_bridge.Memory.State.{World, now_unix}
use lore_auth_bridge.Memory.Devices.{consume_device_authorization}
use lore_auth_bridge.Memory.Devices.Steps.{DeviceCall}
use lore_auth_bridge.Memory.Devices.History.{
  run, IsConsumed, consume_ok, run-IsConsumed, consume-IsConsumed,
}
use lore_auth_bridge.Memory.Resources.{get_by_id}
use lore_auth_bridge.Service.Token.{TokenConfig, manual_mint_authz}
use lore_auth_bridge.Service.Device.{
  DeviceService, DeviceConfig, TokenResult, redeem, repository_for_device,
}
use lore_auth_bridge.Service.Wiring.{
  memory_tokens, memory_devices, memory_resources, memory_authz, memory_accounts, memory_clock,
}
use lore_auth_bridge.Service.Ports.{DeviceCodeGenerator}
use lore_auth_bridge.Service.Device.Keeps.{
  Keeps, bind-Keeps, always-Keeps, guard-Keeps, pure-Keeps, mint-Keeps,
}

-- The device service over the store.
abbrev pub memory_device_service :
    DeviceConfig → TokenConfig → DeviceCodeGenerator World → DeviceService World
memory_device_service cfg token_cfg codes = record {
  cfg = cfg;
  devices = memory_devices;
  resources = memory_resources;
  authz = memory_authz;
  accounts = memory_accounts;
  tokens = memory_tokens token_cfg;
  codes = codes;
  clock = memory_clock;
}

-- What holds after a method that succeeds, given what held before.
record Leads {A : Type 0} (P : World → Type 0) (m : Act World A) (Q : World → Type 0) : Type 0 where
  leads : (w u : World) (a : A) → P w → m w ≡ (ok a, u) → Q u

bind-Leads :
    {A B : Type 0} {P Q R : World → Type 0} (m : Act World A) (f : A → Act World B)
    → Leads P m Q
    → ((a : A) → Leads Q (f a) R)
    → Leads P (m >>= f) R
bind-Leads m f k l = record {
  leads =
      λ w v b x h. let (a, u, p, q) = >>=-eq-ok m f w h in (l a).leads u v b (k.leads w u a x p) q;
}

Keeps-Leads :
    {A : Type 0} (id : String) (m : Act World A)
    → Keeps m
    → Leads (λ w. IsConsumed w id) m (λ w. IsConsumed w id)
Keeps-Leads id m k = record {
  leads = λ w u a (d, e, q) h. (d, ap (λ t. get t.0 id) (k.kept w u a h) ∙ e, q);
}

get_by_id-Keeps : (id : String) → Keeps (get_by_id id)
unfolding get_by_id
get_by_id-Keeps id = always-Keeps (get_by_id id) (λ w. ground arith)

now_unix-Keeps : Keeps now_unix
unfolding now_unix
now_unix-Keeps = always-Keeps now_unix (λ w. refl)

trivially : {A : Type 0} (m : Act World A) → Leads (λ _. Unit {0}) m (λ _. Unit {0})
trivially m = record { leads = λ w u a x h. tt }

consume-Leads :
    (id : String) → Leads (λ _. Unit {0}) (consume_device_authorization id) (λ w. IsConsumed w id)
consume-Leads id = record { leads = λ w u a x h. consume_ok id w u h }

consume-Leads_twice :
    (id : String) → Leads (λ w. IsConsumed w id) (consume_device_authorization id) (λ _. ⊥)
consume-Leads_twice id = record { leads = λ w u a c h. cc (consume-IsConsumed id w c, h) }

from_absurd : {A : Type 0} (m : Act World A) → Leads (λ _. ⊥) m (λ _. ⊥)
from_absurd m = record { leads = λ w u a x h. x }

module _ (cfg : DeviceConfig) (token_cfg : TokenConfig) (codes : DeviceCodeGenerator World)
    (debug_str : String → String) (d : DeviceAuthorization) where
  abbrev service : DeviceService World
  service = memory_device_service cfg token_cfg codes

  abbrev is_incomplete : Bool
  is_incomplete = is_empty_str d.approved_user_id || is_empty_str d.requested_repository_id

  repository-Keeps : Keeps (repository_for_device service d)
  unfolding repository_for_device
  repository-Keeps =
      bind-Keeps _ _
        (guard-Keeps (not (is_empty_str d.requested_repository_id)) device_incomplete_authorization)
        (λ _. get_by_id-Keeps d.requested_repository_id)

  redeem-Leads : Leads (λ _. Unit {0}) (redeem service debug_str d) (λ w. IsConsumed w d.id)
  unfolding redeem
  redeem-Leads =
      bind-Leads _ _ (trivially (guard (not is_incomplete) device_incomplete_authorization)) (λ _.
        bind-Leads _ _ (trivially (repository_for_device service d)) (λ repo.
          bind-Leads _ _
            (trivially (
              manual_mint_authz (memory_tokens token_cfg) debug_str d.approved_user_id repo.name
                "writer" none))
            (λ signed. bind-Leads _ _ (consume-Leads d.id) (λ _.
              bind-Leads _ _ (Keeps-Leads d.id now_unix now_unix-Keeps)
                (λ now. Keeps-Leads d.id (pure _) (pure-Keeps _))))))

  redeem-Leads_twice : Leads (λ w. IsConsumed w d.id) (redeem service debug_str d) (λ _. ⊥)
  unfolding redeem
  redeem-Leads_twice =
      bind-Leads _ _
        (Keeps-Leads d.id (guard (not is_incomplete) device_incomplete_authorization)
          (guard-Keeps (not is_incomplete) device_incomplete_authorization))
        (λ _.
          bind-Leads _ _ (Keeps-Leads d.id (repository_for_device service d) repository-Keeps)
            (λ repo.
              bind-Leads _ _
                (Keeps-Leads d.id
                  (manual_mint_authz (memory_tokens token_cfg) debug_str d.approved_user_id
                    repo.name "writer" none)
                  (mint-Keeps token_cfg debug_str d.approved_user_id repo.name none))
                (λ signed.
                  bind-Leads _ _ (consume-Leads_twice d.id)
                    (λ _. bind-Leads _ _ (from_absurd now_unix) (λ now. from_absurd (pure _))))))

-- Over the in-memory store a device is redeemed for a token at most once, even by a poll that read the
-- device before it was consumed: after a redemption that succeeds, and whatever approvals, consumptions
-- and expirations follow, a redemption of the device as it was read before does not succeed.
pub redeem_once :
    (cfg : DeviceConfig) (token_cfg : TokenConfig) (codes : DeviceCodeGenerator World)
    (debug_str : String → String) (d : DeviceAuthorization) (cs : List DeviceCall) (w v u : World)
    (first second : TokenResult)
    → redeem (memory_device_service cfg token_cfg codes) debug_str d w ≡ (ok first, v)
    → redeem (memory_device_service cfg token_cfg codes) debug_str d (run v cs) ≢ (ok second, u)
redeem_once cfg token_cfg codes debug_str d cs w v u first second h k =
    (redeem-Leads_twice cfg token_cfg codes debug_str d).leads (run v cs) u second
      (run-IsConsumed v d.id cs
        ((redeem-Leads cfg token_cfg codes debug_str d).leads w v first tt h))
      k
