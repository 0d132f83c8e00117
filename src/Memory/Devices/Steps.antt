-- ===== src/Memory/Devices/Steps.antt =====
-- The states of a device authorization in memory/devices.rs: pending, then approved and consumed, or
-- expired.
use text.Mathlib.TextEquality.{eq_iff}
use lore_auth_bridge.Base.{
  ℕ, suc, String, ◌≡◌, ◌⊎◌, inl, inr, refl, sym, subst, ◌∙◌, false, ◌==◌, string_eq, if◌then◌else◌,
  Option, none, some, Result, ok, err, not_found, Act, get, get-insert, i64_leb, saturate_i64,
  arith, Option-cases, Bool-cases, str_eq→eq, not, ◌||◌,
}
use lore_auth_bridge.Model.{DeviceAuthorization}
use lore_auth_bridge.Memory.State.{State, World, now_unix}
use lore_auth_bridge.Memory.Devices.{
  put_device, approve_device_authorization, consume_device_authorization,
  expire_device_authorization,
}

abbrev pub device : World → String → Option DeviceAuthorization
device w id = get w.state.device_authorizations id

-- The time that the next reading of the clock gives.
abbrev pub time : World → ℕ
time w = saturate_i64 (w.env.clock w.ticks)

pub put_device-get :
    (s : State) (id j : String) (d : DeviceAuthorization)
    → get (put_device s id d).device_authorizations j
      ≡ (if id == j then some d else get s.device_authorizations j)
unfolding put_device
put_device-get s id j d = get-insert s.device_authorizations id j d

pub tick : World → World
tick w = record w { ticks = suc w.ticks }

-- The methods as tests on the device that they find.
approve_device : String → String → DeviceAuthorization → World → Result (Unit {0}) × World
unfolding tick put_device now_unix i64_leb
approve_device id user_id d w =
    if not (d.status == "pending") || i64_leb d.expires_at (time w)
    then (err not_found, tick w)
    else (
      ok tt,
      record (tick (tick w)) {
        state = put_device w.state id (record d {
          status = "approved";
          approved_user_id = user_id;
          approved_at = time (tick w);
        });
      },
    )

approve_found :
    (id user_id : String) (d : DeviceAuthorization) (w : World)
    → device w id ≡ some d
    → approve_device_authorization id user_id w ≡ approve_device id user_id d w
unfolding approve_device_authorization approve_device
approve_found id user_id d w e = ground (arith, e)

approve_missing :
    (id user_id : String) (w : World)
    → device w id ≡ none
    → approve_device_authorization id user_id w ≡ (err not_found, w)
unfolding approve_device_authorization
approve_missing id user_id w e = ground (arith, e)

pub consume_device : String → DeviceAuthorization → World → Result (Unit {0}) × World
unfolding tick put_device now_unix
consume_device id d w =
    if d.status == "approved"
    then (
      ok tt,
      record (tick w) {
        state = put_device w.state id (record d { status = "consumed"; consumed_at = time w });
      },
    )
    else (err not_found, w)

pub consume_found :
    (id : String) (d : DeviceAuthorization) (w : World)
    → device w id ≡ some d
    → consume_device_authorization id w ≡ consume_device id d w
unfolding consume_device_authorization consume_device
consume_found id d w e = ground (arith, e)

pub consume_missing :
    (id : String) (w : World)
    → device w id ≡ none
    → consume_device_authorization id w ≡ (err not_found, w)
unfolding consume_device_authorization
consume_missing id w e = ground (arith, e)

expire_device : String → DeviceAuthorization → World → Result (Unit {0}) × World
unfolding put_device
expire_device id d w =
    if d.status == "pending"
    then (ok tt, record w { state = put_device w.state id (record d { status = "expired" }) })
    else (ok tt, w)

expire_found :
    (id : String) (d : DeviceAuthorization) (w : World)
    → device w id ≡ some d
    → expire_device_authorization id w ≡ expire_device id d w
unfolding expire_device_authorization expire_device
expire_found id d w e = ground (arith, e)

expire_missing :
    (id : String) (w : World) → device w id ≡ none → expire_device_authorization id w ≡ (ok tt, w)
unfolding expire_device_authorization
expire_missing id w e = ground (arith, e)

pub consume_device_ok :
    (id : String) (d : DeviceAuthorization) (w v : World)
    → consume_device id d w ≡ (ok tt, v)
    → (e : DeviceAuthorization) × (device v id ≡ some e) × (e.status ≡ "consumed")
unfolding consume_device tick
consume_device_ok id d w v h = elim (Bool-cases (d.status == "approved")) [
  | inl p ↦
      let e : DeviceAuthorization = record d { status = "consumed"; consumed_at = time w } in
      (e, ground (arith, p, h, put_device-get w.state id id e, eq_iff id id), refl)
  | inr p ↦ cc (rw (p, consume_device) at h)
]

pub consume_refused :
    (id : String) (d : DeviceAuthorization) (u : World)
    → d.status ≡ "consumed"
    → consume_device id d u ≡ (err not_found, u)
unfolding consume_device
consume_refused id d u q = let e : (d.status == "approved") ≡ false = rw q refl in ground (arith, e)

-- The steps of one device.
pub data Step (now : ℕ) (d e : DeviceAuthorization) : Type 0 where
  stays : e ≡ d → Step now d e
  approves :
      (user_id : String) (t : ℕ)
      → d.status ≡ "pending"
      → i64_leb d.expires_at now ≡ false
      → e ≡ record d { status = "approved"; approved_user_id = user_id; approved_at = t }
      → Step now d e
  consumes :
      (t : ℕ)
      → d.status ≡ "approved"
      → e ≡ record d { status = "consumed"; consumed_at = t }
      → Step now d e
  expires : d.status ≡ "pending" → e ≡ record d { status = "expired" } → Step now d e

-- The calls that change a device.
pub data DeviceCall : Type 0 where
  approve : String → String → DeviceCall
  consume expire : String → DeviceCall

abbrev pub call : DeviceCall → Act World (Unit {0})
call (approve id user_id) = approve_device_authorization id user_id
call (consume id) = consume_device_authorization id
call (expire id) = expire_device_authorization id

-- The device under a key takes a step, or there is none before and after.
abbrev pub Steps : World → World → String → Type 0
Steps w v j =
    ((device w j ≡ none) × (device v j ≡ none))
    ⊎ ((d : DeviceAuthorization) × (e : DeviceAuthorization) × (device w j ≡ some d)
        × (device v j ≡ some e)
        × Step (time w) d e)

same-Steps : (w v : World) (j : String) → device v j ≡ device w j → Steps w v j
same-Steps w v j e = elim (Option-cases (device w j)) [
  | inl n ↦ inl (n, e ∙ n)
  | inr (d, q) ↦ inr (d, d, q, e ∙ q, stays refl)
]

-- A write of a device that took a step.
put-Steps :
    (w v : World) (id j : String) (d e : DeviceAuthorization)
    → device w id ≡ some d
    → v.state.device_authorizations ≡ (put_device w.state id e).device_authorizations
    → Step (time w) d e
    → Steps w v j
put-Steps w v id j d e q p step = elim (Bool-cases (id == j)) [
  | inl hit ↦ inr (
    d,
    e,
    subst (λ t. device w t ≡ some d) (str_eq→eq id j hit) q,
    ground (arith, p, put_device-get w.state id j e, hit),
    step,
  )
  | inr miss ↦ same-Steps w v j (ground (arith, p, put_device-get w.state id j e, miss))
]

approve-Steps :
    (id user_id : String) (d : DeviceAuthorization) (w : World) (j : String)
    → device w id ≡ some d
    → Steps w (approve_device id user_id d w).1 j
unfolding approve_device tick
approve-Steps id user_id d w j q = elim (Bool-cases (d.status == "pending")) [
  | inl p ↦ elim (Bool-cases (i64_leb d.expires_at (time w))) [
    | inl late ↦ same-Steps w (approve_device id user_id d w).1 j (ground (arith, p, late))
    | inr early ↦
        put-Steps w (approve_device id user_id d w).1 id j d
          (record d {
            status = "approved";
            approved_user_id = user_id;
            approved_at = time (tick w);
          })
          q (ground (arith, p, early))
          (approves user_id (time (tick w)) (str_eq→eq d.status "pending" p) early refl)
  ]
  | inr p ↦ same-Steps w (approve_device id user_id d w).1 j (ground (arith, p))
]

consume-Steps :
    (id : String) (d : DeviceAuthorization) (w : World) (j : String)
    → device w id ≡ some d
    → Steps w (consume_device id d w).1 j
unfolding consume_device tick
consume-Steps id d w j q = elim (Bool-cases (d.status == "approved")) [
  | inl p ↦
      put-Steps w (consume_device id d w).1 id j d
        (record d { status = "consumed"; consumed_at = time w }) q (ground (arith, p))
        (consumes (time w) (str_eq→eq d.status "approved" p) refl)
  | inr p ↦ same-Steps w (consume_device id d w).1 j (ground (arith, p))
]

expire-Steps :
    (id : String) (d : DeviceAuthorization) (w : World) (j : String)
    → device w id ≡ some d
    → Steps w (expire_device id d w).1 j
unfolding expire_device
expire-Steps id d w j q = elim (Bool-cases (d.status == "pending")) [
  | inl p ↦
      put-Steps w (expire_device id d w).1 id j d (record d { status = "expired" }) q
        (ground (arith, p)) (expires (str_eq→eq d.status "pending" p) refl)
  | inr p ↦ same-Steps w (expire_device id d w).1 j (ground (arith, p))
]

-- Under each call every device stays, or goes from pending, before its expiry, to approved, or from
-- approved to consumed, or from pending to expired, and no other field changes than the source names;
-- no device comes or goes.
pub call-Steps : (w : World) (c : DeviceCall) (j : String) → Steps w (call c w).1 j
call-Steps w (approve id user_id) j = elim (Option-cases (device w id)) [
  | inl e ↦
      same-Steps w (call (approve id user_id) w).1 j
        (ground (arith, approve_missing id user_id w e))
  | inr (d, e) ↦
      subst (λ (r : Result (Unit {0}) × World). Steps w r.1 j)
        (sym (approve_found id user_id d w e)) (approve-Steps id user_id d w j e)
]
call-Steps w (consume id) j = elim (Option-cases (device w id)) [
  | inl e ↦ same-Steps w (call (consume id) w).1 j (ground (arith, consume_missing id w e))
  | inr (d, e) ↦
      subst (λ (r : Result (Unit {0}) × World). Steps w r.1 j) (sym (consume_found id d w e))
        (consume-Steps id d w j e)
]
call-Steps w (expire id) j = elim (Option-cases (device w id)) [
  | inl e ↦ same-Steps w (call (expire id) w).1 j (ground (arith, expire_missing id w e))
  | inr (d, e) ↦
      subst (λ (r : Result (Unit {0}) × World). Steps w r.1 j) (sym (expire_found id d w e))
        (expire-Steps id d w j e)
]
