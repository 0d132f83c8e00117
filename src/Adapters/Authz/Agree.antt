-- ===== src/Adapters/Authz/Agree.antt =====
-- What a user may do by the tuples of authz.rs: the two ways to ask agree.
use lore_auth_bridge.Base.{
  String, ◌≡◌, Bool, true, false, ◌&&◌, ◌||◌, List, [], ◌∷◌, ok, any, arith, string_eq,
}
use lore_auth_bridge.Model.{
  Permission, Role, permission_eq, permission_as_str, role_as_str, permissions, allows,
}
use lore_auth_bridge.Adapters.Authz.{
  Tuple, Engine, relations_of, plain_permissions, check_allowed_with_resolver,
  check_any_relation_with_resolver, resource_permissions_with_resolver, insert_permission,
  into_permissions,
}

-- Some role that the user holds has the permission.
abbrev pub may : (String → Bool) → Permission → Bool
may held p =
    (held (role_as_str Role.reader) && allows Role.reader p)
    || (held (role_as_str Role.writer) && allows Role.writer p)
    || (held (role_as_str Role.admin) && allows Role.admin p)

-- What is listed for a user of these relations.
listed : Bool → Bool → Bool → List Permission
unfolding plain_permissions
listed reader writer true = Permission.read ∷ Permission.write ∷ Permission.admin ∷ []
listed reader writer false = plain_permissions reader writer

module _ {W : Type 0} (engine : Engine W) (snapshot : List Tuple) (user_id resource_id : String)
    (held : String → Bool)
    (h : (relation : String)
      → check_allowed_with_resolver engine snapshot resource_id relation user_id
        ≡ ok (held relation)) where
  resource_permissions_eq :
      (w : W)
      → resource_permissions_with_resolver engine snapshot user_id resource_id w
        ≡ (ok (listed (held "reader") (held "writer") (held "admin")), w)
  unfolding resource_permissions_with_resolver listed
  resource_permissions_eq w = ground (arith, h "reader", h "writer", h "admin")

  listed-may :
      (p : Permission)
      → any (λ x. permission_eq x p) (listed (held "reader") (held "writer") (held "admin"))
        ≡ may held p
  unfolding any permission_eq listed plain_permissions insert_permission into_permissions allows
      permissions role_as_str
  listed-may Permission.read = ground arith
  listed-may Permission.write = ground arith
  listed-may Permission.admin = ground arith

  check_any-may :
      (p : Permission)
      → check_any_relation_with_resolver engine snapshot resource_id user_id
          (relations_of (permission_as_str p))
        ≡ ok (may held p)
  unfolding check_any_relation_with_resolver relations_of permission_as_str any permission_eq allows
      permissions role_as_str
  check_any-may Permission.read = ground (arith, h "reader", h "writer", h "admin")
  check_any-may Permission.write = ground (arith, h "writer", h "admin")
  check_any-may Permission.admin = ground (arith, h "admin")

-- The permissions that are listed for a resource and the checks of single actions agree, and both are
-- those of the roles that the user holds on the resource: where each check of a relation answers whether
-- the user holds it, a permission is listed just where some role that is held has it, and the check of
-- its action answers so too.
pub permissions_agree :
    {W : Type 0} (engine : Engine W) (snapshot : List Tuple) (user_id resource_id : String)
    (held : String → Bool)
    → ((relation : String)
        → check_allowed_with_resolver engine snapshot resource_id relation user_id
          ≡ ok (held relation))
    → (w : W)
    → (ps : List Permission) × (resource_permissions_with_resolver engine snapshot user_id
          resource_id w
        ≡ (ok ps, w))
      × ((p : Permission)
          → (any (λ x. permission_eq x p) ps ≡ may held p)
            × (check_any_relation_with_resolver engine snapshot resource_id user_id
                  (relations_of (permission_as_str p))
                ≡ ok (may held p)))
permissions_agree engine snapshot user_id resource_id held h w = (
  listed (held "reader") (held "writer") (held "admin"),
  resource_permissions_eq engine snapshot user_id resource_id held h w,
  λ p. (
    listed-may engine snapshot user_id resource_id held h p,
    check_any-may engine snapshot user_id resource_id held h p,
  ),
)
