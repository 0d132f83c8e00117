-- ===== src/Memory/Devices/History.antt =====
-- What holds of a device authorization over a history of calls.
use text.Mathlib.TextEquality.{eq_iff}
use lore_auth_bridge.Base.{
  ℕ, String, ◌≡◌, inl, inr, refl, sym, ◌∙◌, false, ◌==◌, string_eq, some, List, [], ◌∷◌, ok, err,
  not_found, arith, Option-cases,
}
use lore_auth_bridge.Model.{DeviceAuthorization}
use lore_auth_bridge.Memory.State.{World}
use lore_auth_bridge.Memory.Devices.{consume_device_authorization}
use lore_auth_bridge.Memory.Devices.Steps.{
  device, time, consume_device, consume_found, consume_missing, Step, stays, approves, consumes,
  expires, DeviceCall, call, call-Steps, consume_device_ok, consume_refused,
}

-- A step of a device that is no longer pending keeps the user, and does not make it pending.
Step-user :
    (now : ℕ) (d e : DeviceAuthorization)
    → Step now d e
    → (d.status == "pending") ≡ false
    → (e.approved_user_id ≡ d.approved_user_id) × ((e.status == "pending") ≡ false)
Step-user now d e (stays q) h = (ground (arith, q), ground (arith, q, h))
Step-user now d e (approves u t p l q) h = cc (h, (eq_iff d.status "pending").1 p)
Step-user now d e (consumes t p q) h = (ground (arith, q), rw q refl)
Step-user now d e (expires p q) h = cc (h, (eq_iff d.status "pending").1 p)

-- The store after a history of calls.
unfoldable pub run : World → List DeviceCall → World
run w [] = w
run w (c ∷ cs) = run (call c w).1 cs

abbrev pub IsConsumed : World → String → Type 0
IsConsumed w id = (d : DeviceAuthorization) × (device w id ≡ some d) × (d.status ≡ "consumed")

pending-ne-consumed : ◌≡◌ {A = String} "pending" "consumed" → ⊥
pending-ne-consumed e = cc ((eq_iff "pending" "consumed").1 e)

Step-consumed :
    (now : ℕ) (d e : DeviceAuthorization)
    → Step now d e
    → d.status ≡ "consumed"
    → e.status ≡ "consumed"
Step-consumed now d e (stays q) h = ground (arith, q, h)
Step-consumed now d e (approves u t p l q) h = absurd (pending-ne-consumed (sym p ∙ h))
Step-consumed now d e (consumes t p q) h = ground (arith, q)
Step-consumed now d e (expires p q) h = absurd (pending-ne-consumed (sym p ∙ h))

pub run-IsConsumed :
    (w : World) (id : String) (cs : List DeviceCall) → IsConsumed w id → IsConsumed (run w cs) id
unfolding run
run-IsConsumed w id [] h = h
run-IsConsumed w id (c ∷ cs) (d, e, h) =
    run-IsConsumed (call c w).1 id cs (elim (call-Steps w c id) [
      | inl (n, _) ↦ cc (n, e)
      | inr (d', e', q, q', s) ↦ (e', q', Step-consumed (time w) d' e' s (ground (arith, q, e, h)))
    ])

pub consume_ok :
    (id : String) (w v : World) → consume_device_authorization id w ≡ (ok tt, v) → IsConsumed v id
consume_ok id w v h = elim (Option-cases (device w id)) [
  | inl e ↦ cc (consume_missing id w e, h)
  | inr (d, e) ↦ consumed d (sym (consume_found id d w e) ∙ h)
]
  where
    consumed : (d : DeviceAuthorization) → consume_device id d w ≡ (ok tt, v) → IsConsumed v id
    consumed d q = consume_device_ok id d w v q

pub consume-IsConsumed :
    (id : String) (u : World)
    → IsConsumed u id
    → consume_device_authorization id u ≡ (err not_found, u)
consume-IsConsumed id u (d, e, q) = consume_found id d u e ∙ consume_refused id d u q

-- A device that was consumed is never consumed again: after a consumption that succeeds, whatever
-- approvals, consumptions and expirations follow, the next consumption answers `NotFound` and
-- changes nothing.
pub consume_once :
    (id : String) (w v : World) (cs : List DeviceCall)
    → consume_device_authorization id w ≡ (ok tt, v)
    → consume_device_authorization id (run v cs) ≡ (err not_found, run v cs)
consume_once id w v cs h =
    consume-IsConsumed id (run v cs) (run-IsConsumed v id cs (consume_ok id w v h))

-- Whoever approves a device first stays its user: once a device is no longer pending, no history of
-- calls changes the approved user.
pub approved_user_stays :
    (w : World) (id : String) (d : DeviceAuthorization) (cs : List DeviceCall)
    → device w id ≡ some d
    → (d.status == "pending") ≡ false
    → (e : DeviceAuthorization) × (device (run w cs) id ≡ some e)
      × (e.approved_user_id ≡ d.approved_user_id)
      × ((e.status == "pending") ≡ false)
unfolding run
approved_user_stays w id d [] q h = (d, q, refl, h)
approved_user_stays w id d (c ∷ cs) q h = elim (call-Steps w c id) [
  | inl (n, _) ↦ cc (n, q)
  | inr (d', e, q', r, s) ↦
      let (same, done) = Step-user (time w) d' e s (ground (arith, q, q', h)) in
      let (f, q'', u, g) = approved_user_stays (call c w).1 id e cs r done in
      (f, q'', ground (arith, u, same, q, q'), g)
]
