-- ===== src/Model/Roles.antt =====
-- crates/lore-auth-core/src/model.rs: `Permission`, `Role` and what a role permits.
use lore_auth_bridge.Base.{
  String, Bool, true, false, ◌==◌, string_eq, if◌then◌else◌, Option, none, some, List, [], ◌∷◌, any,
}

pub data Permission : Type 0 where
  read write admin : Permission

pub data Role : Type 0 where
  reader writer admin : Role

-- `Permission::as_str` and `Permission::from_name`.
unfoldable pub permission_as_str : Permission → String
permission_as_str Permission.read = "read"
permission_as_str Permission.write = "write"
permission_as_str Permission.admin = "admin"

unfoldable pub permission_from_name : String → Option Permission
permission_from_name value =
    if value == "read"
    then some Permission.read
    else if value == "write"
    then some Permission.write
    else if value == "admin"
    then some Permission.admin
    else none

-- The derived `PartialEq`.
unfoldable pub permission_eq : Permission → Permission → Bool
permission_eq Permission.read Permission.read = true
permission_eq Permission.write Permission.write = true
permission_eq Permission.admin Permission.admin = true
permission_eq _ _ = false

-- `Role::as_str`, `Role::from_name`, `Role::permissions`, `Role::token_permissions`, `Role::allows`.
unfoldable pub role_as_str : Role → String
role_as_str Role.reader = "reader"
role_as_str Role.writer = "writer"
role_as_str Role.admin = "admin"

unfoldable pub role_from_name : String → Option Role
role_from_name value =
    if value == "reader"
    then some Role.reader
    else if value == "writer"
    then some Role.writer
    else if value == "admin"
    then some Role.admin
    else none

unfoldable pub permissions : Role → Option (List Permission)
permissions Role.reader = some (Permission.read ∷ [])
permissions Role.writer = some (Permission.read ∷ Permission.write ∷ [])
permissions Role.admin = some (Permission.read ∷ Permission.write ∷ Permission.admin ∷ [])

unfoldable pub token_permissions : Role → Option (List Permission)
unfolding permissions
token_permissions Role.admin = some (Permission.read ∷ Permission.write ∷ [])
token_permissions role = permissions role

unfoldable pub allows : Role → Permission → Bool
unfolding permissions permission_eq any
allows role action = elim (permissions role) [
  | none ↦ false
  | some ps ↦ any (λ p. permission_eq p action) ps
]

unfoldable pub role_permissions : String → Option (List Permission)
unfolding permissions role_from_name
role_permissions role = elim (role_from_name role) [ none ↦ none | some r ↦ permissions r ]

unfoldable pub is_known_role : String → Bool
unfolding role_from_name
is_known_role role = elim (role_from_name role) [ none ↦ false | some r ↦ true ]

unfoldable pub role_allows : String → String → Bool
unfolding role_from_name permission_from_name allows
role_allows role action = elim (role_from_name role) [
  | none ↦ false
  | some r ↦ elim (permission_from_name action) [ none ↦ false | some a ↦ allows r a ]
]

unfoldable pub token_permissions_for_role : String → Option (List Permission)
unfolding token_permissions role_from_name
token_permissions_for_role role = elim (role_from_name role) [
  | none ↦ none
  | some r ↦ token_permissions r
]
