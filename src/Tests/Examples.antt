-- ===== src/Tests/Examples.antt =====
-- The theorems of the store at the small store.
use lore_auth_bridge.Base.{
  String, ◌≡◌, ◌↔◌, refl, true, false, List, [], ◌∷◌, ok, err, not_found, In, IsMap, get_or_empty,
  string_eq, ◌==◌, get, some, Bool-cases, inl, inr,
}
use lore_auth_bridge.Model.{DeviceAuthorization}
use lore_auth_bridge.Memory.State.{World, now_unix, hash_secret}
use lore_auth_bridge.Memory.Nesting.{
  group_group_would_cycle, member_groups, direct_group_ids_for_user,
}
use lore_auth_bridge.Memory.Nesting.Relation.{Nested, IsAcyclic}
use lore_auth_bridge.Memory.Nesting.Cycle.{group_group_would_cycle_iff}
use lore_auth_bridge.Memory.Nesting.Closure.{member_groups_iff}
use lore_auth_bridge.Memory.Groups.Acyclic.{NestingCall, nest, unnest, run, run-IsAcyclic}
use lore_auth_bridge.Memory.Groups
use lore_auth_bridge.Memory.Groups.Members.{IsDistinct}
use lore_auth_bridge.Memory.Groups.Links.{Links, call-Links_after_run}
use lore_auth_bridge.Memory.Grants.{allowed, can_access}
use lore_auth_bridge.Memory.Grants.Access.{MayAccess, can_access_iff}
use lore_auth_bridge.Memory.Devices.{consume_device_authorization}
use lore_auth_bridge.Memory.Devices.Steps.{
  DeviceCall, consume, expire, approve, call, call-Steps, Steps,
}
use lore_auth_bridge.Memory.Devices.History.{consume_once, approved_user_stays}
use lore_auth_bridge.Memory.Devices.History
use lore_auth_bridge.Memory.Sessions.{consume_csrf_token}
use lore_auth_bridge.Memory.Sessions.OneTime.{attempts, csrf_token_once}
use lore_auth_bridge.Tests.{test_world, test_state, test_device}

test-IsMap : IsMap test_state.group_groups
unfolding get
test-IsMap = (refl, tt)

-- The store before any group was nested.
abbrev flat_world : World
flat_world = record test_world { state = record test_state { group_groups = [] } }

flat-IsAcyclic : IsAcyclic flat_world.state.group_groups
unfolding get_or_empty get
flat-IsAcyclic g m i n = i

can_access_iff_example :
    (can_access "ann" "urc-game" "write" test_world
      ≡ (ok (allowed test_world.state "ann" "urc-game" "write"), test_world))
    × ((can_access "ann" "urc-game" "write" test_world ≡ (ok true, test_world))
        ↔ MayAccess test_world.state "ann" "urc-game" "write")
can_access_iff_example = can_access_iff test_world "ann" "urc-game" "write" test-IsMap

member_groups_iff_example : In "all" (member_groups test_state "ann") ↔ (
    (d : String) × In d (direct_group_ids_for_user test_state "ann")
    × Nested test_state.group_groups "all" d)
member_groups_iff_example = member_groups_iff test_state "ann" "all" test-IsMap

group_group_would_cycle_iff_example :
    (group_group_would_cycle test_state "devs" "all" ≡ true)
    ↔ Nested test_state.group_groups "all" "devs"
group_group_would_cycle_iff_example = group_group_would_cycle_iff test_state "devs" "all"

-- The second of these calls is refused, the last one is not.
abbrev nestings : List NestingCall
nestings = nest "all" "devs" ∷ nest "devs" "all" ∷ unnest "all" "devs" ∷ nest "devs" "all" ∷ []

run-IsAcyclic_example : IsAcyclic (run flat_world nestings).state.group_groups
run-IsAcyclic_example = run-IsAcyclic flat_world nestings flat-IsAcyclic

abbrev consumed_world : World
consumed_world = (consume_device_authorization "device" test_world).1

consume_test : consume_device_authorization "device" test_world ≡ (ok tt, consumed_world)
unfolding consume_device_authorization
consume_test = refl

abbrev calls : List DeviceCall
calls = expire "device" ∷ approve "device" "bob" ∷ consume "device" ∷ []

consume_once_example :
    consume_device_authorization "device" (History.run consumed_world calls)
    ≡ (err not_found, History.run consumed_world calls)
consume_once_example = consume_once "device" test_world consumed_world calls consume_test

call-Steps_example : Steps test_world (call (consume "device") test_world).1 "device"
call-Steps_example = call-Steps test_world (consume "device") "device"

device_test : get test_world.state.device_authorizations "device" ≡ some test_device
unfolding get
device_test = refl

approved_user_stays_example :
    (e : DeviceAuthorization) × (get
        (History.run test_world calls).state.device_authorizations
        "device"
      ≡ some e)
    × (e.approved_user_id ≡ test_device.approved_user_id)
    × ((e.status == "pending") ≡ false)
approved_user_stays_example =
    approved_user_stays test_world "device" test_device calls device_test refl

abbrev csrf_world : World
csrf_world = (consume_csrf_token "session" "token" test_world).1

csrf_test : consume_csrf_token "session" "token" test_world ≡ (ok tt, csrf_world)
unfolding consume_csrf_token hash_secret now_unix
csrf_test = refl

csrf_token_once_example :
    (consume_csrf_token "session" "token" (attempts csrf_world (("other", "token") ∷ []))).0
    ≡ err not_found
csrf_token_once_example =
    csrf_token_once "session" "token" test_world csrf_world (("other", "token") ∷ []) "session"
      csrf_test

-- `devs` is unnested from `all` after it was nested there again and a call failed.
abbrev relinked : World
relinked = run test_world (nest "all" "devs" ∷ unnest "devs" "all" ∷ [])

abbrev unlinked : World
unlinked = (Groups.remove_group_group "all" "devs" relinked).1

test-IsDistinct : IsDistinct test_state.group_groups
unfolding get_or_empty get
test-IsDistinct g = elim (Bool-cases ("all" == g)) [
  | inl e ↦ rw (e, get_or_empty) (λ i. i, tt)
  | inr e ↦ rw (e, get_or_empty) tt
]

unlink_test : Groups.remove_group_group "all" "devs" relinked ≡ (ok tt, unlinked)
unfolding run Groups.add_group_group Groups.remove_group_group
unlink_test = refl

call-Links_after_run_example : Links (unnest "all" "devs") relinked.state unlinked.state
call-Links_after_run_example =
    call-Links_after_run test_world unlinked (nest "all" "devs" ∷ unnest "devs" "all" ∷ [])
      (unnest "all" "devs") test-IsDistinct unlink_test
