-- ===== src/Memory/Audited/Plans.antt =====
-- The writes of grants and accounts in memory/audited.rs, as plans.
use lore_auth_bridge.Base.{
  String, ◌≡◌, refl, Bool, true, false, [], ◌∷◌, Result, ok, err, ◌==◌, string_eq, arith, some,
  none, get, not_found, not, concat, if◌then◌else◌, Option,
}
use lore_auth_bridge.Model.{User}
use lore_auth_bridge.Memory.State.{State, World}
use lore_auth_bridge.Memory.Helpers.{
  resolve_user_id, resolve_grant_subject_id, resolve_resource_id_for_repo, grant_detail,
}
use lore_auth_bridge.Memory.Grants.{drop_grant}
use lore_auth_bridge.Memory.Grants
use lore_auth_bridge.Memory.Accounts
use lore_auth_bridge.Memory.Accounts.{put_user}
use lore_auth_bridge.Memory.Audited
use lore_auth_bridge.Memory.Audited.{push_audit, already_nested}
use lore_auth_bridge.Memory.Audited.Log.{Planned, plainly, audited, IsLogless}

-- The plans of `remove_grant`, `disable_user` and `enable_user`.
pub drop_plan : String → String → String → String → World → Planned
unfolding drop_grant grant_detail
drop_plan subject_type subject repo role w =
    elim (resolve_grant_subject_id w.env w.state subject_type subject) [
      | err e ↦ err e
      | ok subject_id ↦ elim (resolve_resource_id_for_repo w.state repo) [
        | err e ↦ err e
        | ok resource_id ↦ ok (
          drop_grant w.state (subject_type, subject_id) resource_id,
          concat (subject_type ∷ ":" ∷ subject_id ∷ ":" ∷ repo ∷ ":" ∷ role ∷ []),
          grant_detail subject_type subject_id repo role,
        )
      ]
    ]

pub remove_grant-plain :
    (w : World) (subject_type subject repo role : String)
    → Grants.remove_grant subject_type subject repo role w
      ≡ plainly w (drop_plan subject_type subject repo role w)
unfolding Grants.remove_grant drop_plan
remove_grant-plain w subject_type subject repo role = ground arith

pub remove_grant-audited :
    (w : World) (actor subject_type subject repo role : String)
    → Audited.remove_grant actor subject_type subject repo role w
      ≡ audited actor "grant.remove" "grant" w (drop_plan subject_type subject repo role w)
unfolding Audited.remove_grant drop_plan
remove_grant-audited w actor subject_type subject repo role = ground arith

pub status_plan : (User → Bool) → String → String → World → Planned
unfolding put_user get
status_plan may status user_id_or_email w = elim (resolve_user_id w.state user_id_or_email) [
  | err e ↦ err e
  | ok id ↦ elim (get w.state.users id) [
    | none ↦ err not_found
    | some user ↦
        if may user
        then ok (
          put_user w.state id (record user { status = status }),
          id,
          concat ("email=" ∷ user.email ∷ []),
        )
        else err not_found
  ]
]

pub disable_user-plain :
    (w : World) (user : String)
    → Accounts.disable_user user w ≡ plainly w (status_plan (λ _. true) "disabled" user w)
unfolding Accounts.disable_user status_plan
disable_user-plain w user = ground arith

pub disable_user-audited :
    (w : World) (actor user : String)
    → Audited.disable_user actor user w
      ≡ audited actor "user.disable" "user" w (status_plan (λ _. true) "disabled" user w)
unfolding Audited.disable_user status_plan
disable_user-audited w actor user = ground arith

pub enable_user-plain :
    (w : World) (user : String)
    → Accounts.enable_user user w
      ≡ plainly w (status_plan (λ u. not (u.status == "deleted")) "active" user w)
unfolding Accounts.enable_user status_plan
enable_user-plain w user = ground arith

pub enable_user-audited :
    (w : World) (actor user : String)
    → Audited.enable_user actor user w
      ≡ audited actor "user.enable" "user" w
          (status_plan (λ u. not (u.status == "deleted")) "active" user w)
unfolding Audited.enable_user status_plan
enable_user-audited w actor user = ground arith

pub drop_plan-IsLogless :
    (subject_type subject repo role : String) (w : World)
    → IsLogless w (drop_plan subject_type subject repo role w)
unfolding drop_plan
drop_plan-IsLogless subject_type subject repo role w =
    by_names (resolve_grant_subject_id w.env w.state subject_type subject)
      (resolve_resource_id_for_repo w.state repo)
  where
    by_names :
        (a b : Result String)
        → IsLogless w (elim a as (λ _. Planned) [
          | err e ↦ err e
          | ok subject_id ↦ elim b as (λ _. Planned) [
            | err e ↦ err e
            | ok resource_id ↦ ok (
              drop_grant w.state (subject_type, subject_id) resource_id,
              concat (subject_type ∷ ":" ∷ subject_id ∷ ":" ∷ repo ∷ ":" ∷ role ∷ []),
              grant_detail subject_type subject_id repo role,
            )
          ]
        ])
    by_names (err e) b = tt
    by_names (ok i) (err e) = tt
    by_names (ok i) (ok j) = refl

pub status_plan-IsLogless :
    (may : User → Bool) (status user : String) (w : World)
    → IsLogless w (status_plan may status user w)
unfolding status_plan
status_plan-IsLogless may status user w = by_id (resolve_user_id w.state user)
  where
    plan_if :
        (b : Bool) (t : State) (i d : String)
        → t.admin_audit ≡ w.state.admin_audit
        → IsLogless w (if b then ok (t, i, d) else err not_found)
    plan_if true t i d k = k
    plan_if false t i d k = tt

    by_user :
        (id : String) (o : Option User)
        → IsLogless w (elim o as (λ _. Planned) [
          | none ↦ err not_found
          | some u ↦
              if may u
              then ok (
                put_user w.state id (record u { status = status }),
                id,
                concat ("email=" ∷ u.email ∷ []),
              )
              else err not_found
        ])
    by_user id none = tt
    by_user id (some u) = plan_if (may u) _ id _ refl

    by_id :
        (r : Result String)
        → IsLogless w (elim r as (λ _. Planned) [
          | err e ↦ err e
          | ok id ↦ elim (get w.state.users id) as (λ _. Planned) [
            | none ↦ err not_found
            | some u ↦
                if may u
                then ok (
                  put_user w.state id (record u { status = status }),
                  id,
                  concat ("email=" ∷ u.email ∷ []),
                )
                else err not_found
          ]
        ])
    by_id (err e) = tt
    by_id (ok id) = by_user id (get w.state.users id)
