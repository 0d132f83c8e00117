-- ===== src/Memory/Nesting.antt =====
-- crates/lore-auth-adapters/src/memory/mod.rs: the walks over the nesting of groups. Each `while`
-- loop takes fuel and answers `none` where it runs out; `or_default` stands for a value there, which
-- the fuel given never reaches. A `HashSet` is the list of its elements.
pub mod Relation
pub mod Cycle
pub mod Widen
pub mod Closure
pub mod Paths
use lore_auth_bridge.Base.{
  ℕ, zero, suc, ◌+◌, String, Bool, true, false, ◌&&◌, ◌||◌, not, ◌==◌, string_eq, if◌then◌else◌,
  Option, none, some, List, [], ◌∷◌, ◌++◌, map, HashMap, get, insert, get_or_empty, contains, any,
  length, concat, ok, err, In,
}
use lore_auth_bridge.Memory.State.{State}
use lore_auth_bridge.Memory.Helpers.{resolve_group_id, group_label}

abbrev pub Edges : Type 0
Edges = HashMap String (List String)

abbrev pub or_default : {A : Type 0} → A → Option A → A
or_default a none = a
or_default a (some b) = b

-- The members of all entries together.
unfoldable pub edge_count : Edges → ℕ
edge_count [] = 0
edge_count ((g, ms) ∷ rest) = length ms + edge_count rest

-- `for member in members { stack.push(member) }`; the head of the list is the top.
unfoldable pub push_all : List String → List String → List String
push_all [] stack = stack
push_all (m ∷ ms) stack = push_all ms (m ∷ stack)

-- The `while` loop of `group_group_would_cycle`.
unfoldable pub cycle_loop : ℕ → Edges → String → List String → List String → Option Bool
cycle_loop zero edges parent seen stack = none
cycle_loop (suc fuel) edges parent seen [] = some false
cycle_loop (suc fuel) edges parent seen (g ∷ stack) =
    let again = cycle_loop fuel edges parent seen stack in
    let deeper = cycle_loop fuel edges parent (g ∷ seen) (push_all (get_or_empty edges g) stack) in
    if g == parent then some true else if contains seen g then again else deeper

-- `group_group_would_cycle`.
unfoldable pub group_group_would_cycle : State → String → String → Bool
unfolding cycle_loop
group_group_would_cycle state parent_group_id member_group_id = or_default true (
    cycle_loop (suc (suc (edge_count state.group_groups))) state.group_groups parent_group_id []
      (member_group_id ∷ []))

-- Insertion into a `HashSet`.
unfoldable pub set_insert : List String → String → List String
set_insert set g = if contains set g then set else g ∷ set

-- `direct_group_ids_for_user`.
unfoldable pub direct_group_ids : State → List String → List String
unfolding resolve_group_id set_insert
direct_group_ids state [] = []
direct_group_ids state (group ∷ rest) = elim (resolve_group_id state group) [
  | ok id ↦ set_insert (direct_group_ids state rest) id
  | err _ ↦ direct_group_ids state rest
]

unfoldable pub direct_group_ids_for_user : State → String → List String
unfolding direct_group_ids get_or_empty
direct_group_ids_for_user state user_id =
    direct_group_ids state (get_or_empty state.group_members user_id)

-- The condition in the `for` loop: some member is among the groups, and `insert` adds the parent.
unfoldable pub joins : List String → String → List String → Bool
unfolding any contains
joins groups parent members = any (λ m. contains groups m) members && not (contains groups parent)

-- One run of the `for` loop: the groups, and `changed`.
unfoldable pub widen : Edges → List String → Bool → List String × Bool
unfolding joins
widen [] groups changed = (groups, changed)
widen ((parent, members) ∷ rest) groups changed =
    widen rest (if joins groups parent members then parent ∷ groups else groups)
      (changed || joins groups parent members)

-- The `while changed` loop of `grant_subject_keys_for_user`.
unfoldable pub widen_loop : ℕ → Edges → List String → Option (List String)
widen_loop zero edges groups = none
widen_loop (suc fuel) edges groups =
    let (wider, changed) = widen edges groups false in
    let again = widen_loop fuel edges wider in if changed then again else some wider

-- `grant_subject_keys_for_user`, in two steps: the groups, and the keys of the grants.
unfoldable pub member_groups : State → String → List String
unfolding widen_loop direct_group_ids_for_user
member_groups state user_id = or_default [] (
    widen_loop (suc (length state.group_groups)) state.group_groups
      (direct_group_ids_for_user state user_id))

unfoldable pub grant_subject_keys_for_user : State → String → List (String × String)
unfolding member_groups
grant_subject_keys_for_user state user_id =
    ("user", user_id) ∷ map (λ group_id. ("group", group_id)) (member_groups state user_id)

abbrev pub is_some : Option String → Bool
is_some none = false
is_some (some _) = true

-- The `for` loop over the entries in `group_paths_for_user`: a parent of the child that has no path
-- yet gets one, and goes to the back of the queue.
unfoldable pub visit_parents :
    State
    → Edges
    → String
    → String
    → HashMap String String
    → List String
    → HashMap String String × List String
unfolding contains get insert
visit_parents state [] child child_path paths queue = (paths, queue)
visit_parents state ((parent, members) ∷ rest) child child_path paths queue =
    visit_parents state rest child child_path
      (if contains members child && not (is_some (get paths parent))
        then insert paths parent (concat (child_path ∷ " -> " ∷ group_label state parent ∷ []))
        else paths)
      (if contains members child && not (is_some (get paths parent))
        then queue ++ parent ∷ []
        else queue)

-- The first `for` loop: the direct groups.
unfoldable pub seed_paths :
    State → List String → HashMap String String → List String → HashMap String String × List String
unfolding get insert
seed_paths state [] paths queue = (paths, queue)
seed_paths state (g ∷ rest) paths queue =
    seed_paths state rest (insert paths g (group_label state g))
      (if is_some (get paths g) then queue else queue ++ g ∷ [])

-- The `while` loop of `group_paths_for_user`.
unfoldable pub paths_loop :
    ℕ → State → HashMap String String → List String → Option (HashMap String String)
unfolding visit_parents get
paths_loop zero state paths queue = none
paths_loop (suc fuel) state paths [] = some paths
paths_loop (suc fuel) state paths (child ∷ queue) = elim (get paths child) [
  | none ↦ paths_loop fuel state paths queue
  | some child_path ↦
      let (paths', queue') = visit_parents state state.group_groups child child_path paths queue in
      paths_loop fuel state paths' queue'
]

-- `group_paths_for_user`.
unfoldable pub group_paths_for_user : State → String → HashMap String String
unfolding seed_paths paths_loop direct_group_ids_for_user
group_paths_for_user state user_id =
    let (paths, queue) = seed_paths state (direct_group_ids_for_user state user_id) [] [] in
    or_default [] (paths_loop (suc (length queue + length state.group_groups)) state paths queue)
