-- ===== src/Inbound/Auth/Check.antt =====
-- What `check_user_permission` of grpcauth.rs answers, over the in-memory store.
use lore_auth_bridge.Base.{
  String, ◌≡◌, ◌↔◌, ◌⊎◌, refl, ◌∙◌, ap, sym, subst, inl, inr, Bool, true, false, string_eq, Option,
  none, some, List, [], ◌∷◌, ◌++◌, In, ok, get, arith, Option-cases, Bool-cases, In-append,
  In-append_left, In-append_right,
}
use lore_auth_bridge.Model.{User, Resource, Permission, permission_as_str}
use lore_auth_bridge.Memory.State.{World}
use lore_auth_bridge.Memory.Grants.{allowed, can_access}
use lore_auth_bridge.Memory.Resources.{get_by_resource_id}
use lore_auth_bridge.Service.Permission.{PermissionService, CheckedPermission, check}
use lore_auth_bridge.Service.Login.{LoginService}
use lore_auth_bridge.Service.Token.{TokenService}
use lore_auth_bridge.Service.Token.Authorize.{MayWrite}
use lore_auth_bridge.Service.Wiring.{memory_resources, memory_authz}
use lore_auth_bridge.Inbound.Reply.{accept}
use lore_auth_bridge.Inbound.Auth.{
  UrcAuthServer, Request, CheckUserPermissionRequest, CheckUserPermissionResponse,
  PermittedResource, split_checked, split_all, permissions_to_strings, resolve_subject_user,
  check_user_permission,
}

abbrev pub memory_permissions : PermissionService World
memory_permissions = record { resources = memory_resources; authz = memory_authz }

abbrev pub memory_server : LoginService World → TokenService World → UrcAuthServer World
memory_server login tokens = record {
  login = login;
  tokens = tokens;
  permissions = memory_permissions;
}

-- The verdict on a resource that is asked for, and may be there.
verdict_of : World → String → String → Option Resource → CheckedPermission
verdict_of w user_id id none = record { resource_id = id; allowed = false; permission = [] }
verdict_of w user_id id (some r) = record {
  resource_id = r.resource_id;
  allowed = allowed w.state user_id r.resource_id "write";
  permission = Permission.read ∷ Permission.write ∷ [];
}

abbrev verdict : World → String → String → CheckedPermission
verdict w user_id id = verdict_of w user_id id (get w.state.resources id)

verdicts : World → String → List String → List CheckedPermission
verdicts w user_id [] = []
verdicts w user_id (id ∷ rest) = verdict w user_id id ∷ verdicts w user_id rest

check_lem :
    (w : World) (user_id : String) (ids : List String)
    → check memory_permissions user_id ids w ≡ (ok (verdicts w user_id ids), w)
unfolding check verdicts verdict_of get_by_resource_id can_access
check_lem w user_id [] = refl
check_lem w user_id (id ∷ rest) = elim (Option-cases (get w.state.resources id)) [
  | inl e ↦ ground (arith, e, check_lem w user_id rest)
  | inr (r, e) ↦ ground (arith, e, check_lem w user_id rest)
]

-- The two lists of an answer, as a caller reads them.
abbrev granted_entry : CheckedPermission → PermittedResource
granted_entry item = record {
  resource_id = item.resource_id;
  permission = permissions_to_strings item.permission;
}

abbrev denied_entry : CheckedPermission → PermittedResource
denied_entry item = record { resource_id = item.resource_id; permission = [] }

-- Some item has the verdict and makes the entry.
abbrev Made :
    Bool
    → (CheckedPermission → PermittedResource)
    → List CheckedPermission
    → PermittedResource
    → Type 0
Made verdict entry items p =
    (item : CheckedPermission) × In item items × (item.allowed ≡ verdict) × (p ≡ entry item)

In-snoc : {A : Type 0} (a x : A) (xs : List A) → In a (xs ++ x ∷ []) ↔ (In a xs ⊎ (a ≡ x))
In-snoc a x xs = (
  λ i. elim (In-append a xs (x ∷ []) i) [
    | inl j ↦ inl j
    | inr (inl q) ↦ inr q
    | inr (inr z) ↦ absurd z
  ],
  elim [ inl j ↦ In-append_left a xs (x ∷ []) j | inr q ↦ In-append_right a xs (x ∷ []) (inl q) ],
)

-- A list that has grown by the entries of an item with the verdict and of the rest.
grown :
    (verdict : Bool) (entry : CheckedPermission → PermittedResource) (item : CheckedPermission)
    (rest : List CheckedPermission) (before after : List PermittedResource) (p : PermittedResource)
    → item.allowed ≡ verdict
    → In p after ↔ (In p (before ++ entry item ∷ []) ⊎ Made verdict entry rest p)
    → In p after ↔ (In p before ⊎ Made verdict entry (item ∷ rest) p)
grown verdict entry item rest before after p h ih = (
  λ i. elim (ih.0 i) [
    | inl j ↦ elim ((In-snoc p (entry item) before).0 j) [
      | inl k ↦ inl k
      | inr q ↦ inr (item, inl refl, h, q)
    ]
    | inr (x, k, a, q) ↦ inr (x, inr k, a, q)
  ],
  elim [
    | inl j ↦ ih.1 (inl ((In-snoc p (entry item) before).1 (inl j)))
    | inr (x, inl e, a, q) ↦ ih.1 (inl ((In-snoc p (entry item) before).1 (inr (q ∙ ap entry e))))
    | inr (x, inr k, a, q) ↦ ih.1 (inr (x, k, a, q))
  ],
)

-- A list that an item of the other verdict leaves as it is.
kept :
    (verdict : Bool) (entry : CheckedPermission → PermittedResource) (item : CheckedPermission)
    (rest : List CheckedPermission) (before after : List PermittedResource) (p : PermittedResource)
    → ¬ (item.allowed ≡ verdict)
    → In p after ↔ (In p before ⊎ Made verdict entry rest p)
    → In p after ↔ (In p before ⊎ Made verdict entry (item ∷ rest) p)
kept verdict entry item rest before after p h ih = (
  λ i. elim (ih.0 i) [ inl j ↦ inl j | inr (x, k, a, q) ↦ inr (x, inr k, a, q) ],
  elim [
    | inl j ↦ ih.1 (inl j)
    | inr (x, inl e, a, q) ↦ absurd (h (sym (ap (λ (c : CheckedPermission). c.allowed) e) ∙ a))
    | inr (x, inr k, a, q) ↦ ih.1 (inr (x, k, a, q))
  ],
)

true_not_false : (b : Bool) → b ≡ true → ¬ (b ≡ false)
true_not_false b h k = cc

false_not_true : (b : Bool) → b ≡ false → ¬ (b ≡ true)
false_not_true b h k = cc

-- What the loop makes of a list of items.
abbrev IsSplit :
    List CheckedPermission → CheckUserPermissionResponse → CheckUserPermissionResponse → Type 0
IsSplit items before after =
    (p : PermittedResource)
    → (In p after.allowed_resource_permission
        ↔ (In p before.allowed_resource_permission ⊎ Made true granted_entry items p))
      × (In p after.denied_resource_permission
          ↔ (In p before.denied_resource_permission ⊎ Made false denied_entry items p))

module _ (item : CheckedPermission) (rest : List CheckedPermission)
    (before : CheckUserPermissionResponse) where
  abbrev with_allowed : CheckUserPermissionResponse
  with_allowed = record before {
    allowed_resource_permission = before.allowed_resource_permission ++ granted_entry item ∷ [];
  }

  abbrev with_denied : CheckUserPermissionResponse
  with_denied = record before {
    denied_resource_permission = before.denied_resource_permission ++ denied_entry item ∷ [];
  }

  split-allowed : item.allowed ≡ true → split_all (item ∷ rest) before ≡ split_all rest with_allowed
  unfolding split_all split_checked
  split-allowed e = rw e refl

  split-denied : item.allowed ≡ false → split_all (item ∷ rest) before ≡ split_all rest with_denied
  unfolding split_all split_checked
  split-denied e = rw e refl

abbrev no_entries : CheckUserPermissionResponse
no_entries = record { allowed_resource_permission = []; denied_resource_permission = [] }

split_all-IsSplit :
    (items : List CheckedPermission) (before : CheckUserPermissionResponse)
    → IsSplit items before (split_all items before)
split_all-IsSplit [] before p =
    unfold split_all in
    (
      (λ i. inl i, elim [ inl i ↦ i | inr (x, z, _, _) ↦ absurd z ]),
      (λ i. inl i, elim [ inl i ↦ i | inr (x, z, _, _) ↦ absurd z ]),
    )
split_all-IsSplit (item ∷ rest) before p = elim (Bool-cases item.allowed) [
  | inl e ↦
      let after = split_all rest (with_allowed item rest before) in
      subst (λ r. IsSplit (item ∷ rest) before r) (sym (split-allowed item rest before e))
        (λ p.
          let (a, d) = split_all-IsSplit rest (with_allowed item rest before) p in
          (
            grown true granted_entry item rest before.allowed_resource_permission
                after.allowed_resource_permission p e a,
            kept false denied_entry item rest before.denied_resource_permission
                after.denied_resource_permission p (true_not_false item.allowed e) d,
          ))
        p
  | inr e ↦
      let after = split_all rest (with_denied item rest before) in
      subst (IsSplit (item ∷ rest) before) (sym (split-denied item rest before e))
        (λ p.
          let (a, d) = split_all-IsSplit rest (with_denied item rest before) p in
          (
            kept true granted_entry item rest before.allowed_resource_permission
                after.allowed_resource_permission p (false_not_true item.allowed e) a,
            grown false denied_entry item rest before.denied_resource_permission
                after.denied_resource_permission p e d,
          ))
        p
]

-- An item of the verdicts is the verdict on an id that is asked for.
In-verdicts :
    (w : World) (user_id : String) (ids : List String) (item : CheckedPermission)
    → In item (verdicts w user_id ids) ↔ ((id : String) × In id ids × (item ≡ verdict w user_id id))
unfolding verdicts
In-verdicts w user_id [] item = (λ i. absurd i, λ h. absurd h.1)
In-verdicts w user_id (id ∷ rest) item = (
  elim [
    | inl q ↦ (id, inl refl, q)
    | inr i ↦ let (x, j, q) = (In-verdicts w user_id rest item).0 i in (x, inr j, q)
  ],
  λ h. elim h.1 [
    | inl e ↦ inl (h.2 ∙ ap (λ x. verdict w user_id x) e)
    | inr j ↦ inr ((In-verdicts w user_id rest item).1 (h.0, j, h.2))
  ],
)

-- A user may write the resource that an id stands for, and the answer names it as it is stored.
abbrev pub Writable : World → String → String → PermittedResource → Type 0
Writable w user_id id p =
    (r : Resource) × (get w.state.resources id ≡ some r)
    × (allowed w.state user_id r.resource_id "write" ≡ true)
    × (p ≡ record { resource_id = r.resource_id; permission = "read" ∷ "write" ∷ [] })

-- A resource is missing, or the user may not write it; its permissions are not shown.
abbrev refused_entry : String → Option Resource → PermittedResource
refused_entry id none = record { resource_id = id; permission = [] }
refused_entry id (some r) = record { resource_id = r.resource_id; permission = [] }

abbrev pub Refused : World → String → String → PermittedResource → Type 0
Refused w user_id id p =
    (¬ MayWrite w user_id id) × (p ≡ refused_entry id (get w.state.resources id))

refused_entry_eq :
    (w : World) (user_id id : String) (o : Option Resource)
    → denied_entry (verdict_of w user_id id o) ≡ refused_entry id o
unfolding verdict_of
refused_entry_eq w user_id id none = refl
refused_entry_eq w user_id id (some r) = refl

module _ (w : World) (user_id id : String) (p : PermittedResource) where
  verdict-Writable :
      (((verdict w user_id id).allowed ≡ true) × (p ≡ granted_entry (verdict w user_id id)))
      ↔ Writable w user_id id p
  unfolding verdict_of permissions_to_strings permission_as_str
  verdict-Writable = elim (Option-cases (get w.state.resources id)) [
    | inl e ↦ (
      λ h. cc (ap (λ o. (verdict_of w user_id id o).allowed) e, h.0),
      λ (r, q, _, _). cc (sym e ∙ q),
    )
    | inr (r, e) ↦
        let same = ap (verdict_of w user_id id) e in
        (
          λ h. (r, e, sym (ap (λ c. c.allowed) same) ∙ h.0, h.1 ∙ ap granted_entry same),
          λ (x, q, a, s).
              let k = ap (verdict_of w user_id id) q in
              (ap (λ c. c.allowed) k ∙ a, s ∙ sym (ap granted_entry k)),
        )
  ]

  verdict-MayWrite : ((verdict w user_id id).allowed ≡ true) ↔ MayWrite w user_id id
  unfolding verdict_of
  verdict-MayWrite = elim (Option-cases (get w.state.resources id)) [
    | inl e ↦
        (λ h. cc (ap (λ o. (verdict_of w user_id id o).allowed) e, h), λ (r, q, _). cc (sym e ∙ q))
    | inr (r, e) ↦ (
      λ h. (r, e, sym (ap (λ o. (verdict_of w user_id id o).allowed) e) ∙ h),
      λ (x, q, a). ap (λ o. (verdict_of w user_id id o).allowed) q ∙ a,
    )
  ]

  verdict-Refused :
      (((verdict w user_id id).allowed ≡ false) × (p ≡ denied_entry (verdict w user_id id)))
      ↔ Refused w user_id id p
  verdict-Refused =
      let same = refused_entry_eq w user_id id (get w.state.resources id) in
      (
        λ h. (
          λ m. true_not_false (verdict w user_id id).allowed (verdict-MayWrite.1 m) h.0,
          h.1 ∙ same,
        ),
        λ h. (
          elim (Bool-cases (verdict w user_id id).allowed) [
            | inl e ↦ absurd (h.0 (verdict-MayWrite.0 e))
            | inr e ↦ e
          ],
          h.1 ∙ sym same,
        ),
      )

-- What an answer lists, from the verdicts on the ids.
module _ (w : World) (user_id : String) (ids : List String) (p : PermittedResource) where
  Made-Writable :
      Made true granted_entry (verdicts w user_id ids) p
      ↔ ((id : String) × In id ids × Writable w user_id id p)
  Made-Writable = (
    λ (x, i, a, q).
        let (id, j, e) = (In-verdicts w user_id ids x).0 i in
        (
          id,
          j,
          (verdict-Writable w user_id id p).0
              (sym (ap (λ c. c.allowed) e) ∙ a, q ∙ ap granted_entry e),
        ),
    λ (id, j, m).
        let (a, q) = (verdict-Writable w user_id id p).1 m in
        (
          verdict w user_id id,
          (In-verdicts w user_id ids (verdict w user_id id)).1 (id, j, refl),
          a,
          q,
        ),
  )

  Made-Refused :
      Made false denied_entry (verdicts w user_id ids) p
      ↔ ((id : String) × In id ids × Refused w user_id id p)
  Made-Refused = (
    λ (x, i, a, q).
        let (id, j, e) = (In-verdicts w user_id ids x).0 i in
        (
          id,
          j,
          (verdict-Refused w user_id id p).0
              (sym (ap (λ c. c.allowed) e) ∙ a, q ∙ ap denied_entry e),
        ),
    λ (id, j, m).
        let (a, q) = (verdict-Refused w user_id id p).1 m in
        (
          verdict w user_id id,
          (In-verdicts w user_id ids (verdict w user_id id)).1 (id, j, refl),
          a,
          q,
        ),
  )

-- A list that starts empty.
from_empty : {A B C : Type 0} → A ↔ (⊥ ⊎ B) → B ↔ C → A ↔ C
from_empty f g = (λ a. elim (f.0 a) [ inl z ↦ absurd z | inr b ↦ g.0 b ], λ c. f.1 (inr (g.1 c)))

-- `check_user_permission` answers for each resource that is asked for, once the user is known: it lists
-- as allowed, with the permissions to read and to write, just those that are there and that the user
-- may write, under the ids they are stored with, and as denied, with no permissions, just the others.
pub check_user_permission_iff :
    (login : LoginService World) (tokens : TokenService World)
    (request : Request CheckUserPermissionRequest) (w v : World) (user : User)
    → resolve_subject_user (memory_server login tokens) request w ≡ (accept user, v)
    → (r : CheckUserPermissionResponse) × (check_user_permission
          (memory_server login tokens)
          request
          w
        ≡ (accept r, v))
      × ((p : PermittedResource)
          → (In p r.allowed_resource_permission
              ↔ ((id : String) × In id request.message.resource_id × Writable v user.id id p))
            × (In p r.denied_resource_permission
                ↔ ((id : String) × In id request.message.resource_id × Refused v user.id id p)))
unfolding check_user_permission
check_user_permission_iff login tokens request w v user h =
    let items = verdicts v user.id request.message.resource_id in
    (
      split_all items no_entries,
      ground (arith, h, check_lem v user.id request.message.resource_id),
      λ p. (
        from_empty (split_all-IsSplit items no_entries p).0
            (Made-Writable v user.id request.message.resource_id p),
        from_empty (split_all-IsSplit items no_entries p).1
            (Made-Refused v user.id request.message.resource_id p),
      ),
    )
