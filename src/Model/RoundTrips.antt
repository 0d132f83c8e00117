-- ===== src/Model/RoundTrips.antt =====
-- Names and ids of crates/lore-auth-core/src/model.rs, written and read back.
use Prim.Native.String.{◌++◌ as str_append, char_at}
use lore_auth_bridge.Base.{
  String, true, false, ◌≡◌, ◌↔◌, refl, sym, ◌∙◌, ap, subst, inl, inr, string_eq, some, arith,
  Bool-cases, str_eq→eq, has_prefix, strip_prefix-append, strip_prefix-none, has_prefix-nonempty,
  has_prefix-append, concat-two, is_empty_str,
}
use lore_auth_bridge.Model.Roles.{
  Permission, Role, permission_as_str, permission_from_name, role_as_str, role_from_name,
}
use lore_auth_bridge.Model.Ids.{for_repository_id, repository_id_from_resource_id}

role_from_name-role_as_str : (r : Role) → role_from_name (role_as_str r) ≡ some r
unfolding role_from_name role_as_str
role_from_name-role_as_str Role.reader = refl
role_from_name-role_as_str Role.writer = refl
role_from_name-role_as_str Role.admin = refl

permission_from_name-permission_as_str :
    (p : Permission) → permission_from_name (permission_as_str p) ≡ some p
unfolding permission_from_name permission_as_str
permission_from_name-permission_as_str Permission.read = refl
permission_from_name-permission_as_str Permission.write = refl
permission_from_name-permission_as_str Permission.admin = refl

role_as_str-role_from_name :
    (text : String) (r : Role) → role_from_name text ≡ some r → text ≡ role_as_str r
unfolding role_from_name role_as_str
role_as_str-role_from_name text r h =
    ground (arith, str_eq→eq text "reader", str_eq→eq text "writer", str_eq→eq text "admin")

permission_as_str-permission_from_name :
    (text : String) (p : Permission)
    → permission_from_name text ≡ some p
    → text ≡ permission_as_str p
unfolding permission_from_name permission_as_str
permission_as_str-permission_from_name text p h =
    ground (arith, str_eq→eq text "read", str_eq→eq text "write", str_eq→eq text "admin")

-- Each role and each permission has a name of its own: a text reads as a role, or as a permission, just
-- where it is the name that is written for it.
pub from_name_iff :
    (text : String) (r : Role) (p : Permission)
    → ((role_from_name text ≡ some r) ↔ (text ≡ role_as_str r))
      × ((permission_from_name text ≡ some p) ↔ (text ≡ permission_as_str p))
from_name_iff text r p = (
  (role_as_str-role_from_name text r, λ e. rw e (role_from_name-role_as_str r)),
  (
    permission_as_str-permission_from_name text p,
    λ e. rw e (permission_from_name-permission_as_str p),
  ),
)

for_repository_id-urc :
    (id : String)
    → is_empty_str id ≡ false
    → has_prefix "urc-" id ≡ true
    → for_repository_id id ≡ some id
unfolding for_repository_id
for_repository_id-urc id e h = rw (e, h) refl

for_repository_id-plain :
    (id : String)
    → is_empty_str id ≡ false
    → has_prefix "urc-" id ≡ false
    → for_repository_id id ≡ some (str_append "urc-" id)
unfolding for_repository_id
for_repository_id-plain id e h = rw (e, h) (ap some (concat-two "urc-" id))

for_repository_id-nonempty :
    (id resource_id : String) → for_repository_id id ≡ some resource_id → is_empty_str id ≡ false
unfolding for_repository_id
for_repository_id-nonempty id resource_id h = elim (Bool-cases (is_empty_str id)) [
  | inl e ↦ cc (rw e at h)
  | inr e ↦ e
]

repository_id-of_urc : (id : String) → repository_id_from_resource_id (str_append "urc-" id) ≡ id
unfolding repository_id_from_resource_id
repository_id-of_urc id = rw (repository_id_from_resource_id, strip_prefix-append "urc-" id) refl

repository_id-plain :
    (id : String) → has_prefix "urc-" id ≡ false → repository_id_from_resource_id id ≡ id
unfolding repository_id_from_resource_id
repository_id-plain id h = rw (repository_id_from_resource_id, strip_prefix-none "urc-" id h) refl

urc-nonempty : (id : String) → is_empty_str (str_append "urc-" id) ≡ false
urc-nonempty id =
    has_prefix-nonempty (char_at "u" 0) "rc-" (str_append "urc-" id) (has_prefix-append "urc-" id)

-- `ResourceID::for_repository_id` leaves the repository that an id names as it is, and changes nothing
-- the second time.
pub resource_id_roundtrip :
    (id resource_id : String)
    → for_repository_id id ≡ some resource_id
    → (repository_id_from_resource_id resource_id ≡ repository_id_from_resource_id id)
      × (for_repository_id resource_id ≡ some resource_id)
resource_id_roundtrip id resource_id h = elim (Bool-cases (has_prefix "urc-" id)) [
  | inl e ↦
      let same : id ≡ resource_id = ground (arith, for_repository_id-urc id some_id e) in
      subst
        (λ r.
          (repository_id_from_resource_id r ≡ repository_id_from_resource_id id)
          × (for_repository_id r ≡ some r))
        same (refl, for_repository_id-urc id some_id e)
  | inr e ↦
      let same : str_append "urc-" id ≡ resource_id =
        ground (arith, for_repository_id-plain id some_id e) in
      subst
        (λ r.
          (repository_id_from_resource_id r ≡ repository_id_from_resource_id id)
          × (for_repository_id r ≡ some r))
        same
        (
          repository_id-of_urc id ∙ sym (repository_id-plain id e),
          for_repository_id-urc (str_append "urc-" id) (urc-nonempty id)
              (has_prefix-append "urc-" id),
        )
]
  where
    some_id : is_empty_str id ≡ false
    some_id = for_repository_id-nonempty id resource_id h
