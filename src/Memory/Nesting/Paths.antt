-- ===== src/Memory/Nesting/Paths.antt =====
-- The loop of crates/lore-auth-adapters/src/memory/mod.rs that gives each group above a user a path:
-- it ends within the fuel that the model gives it.
use lore_auth_bridge.Base.{
  ℕ, zero, suc, ◌+◌, ◌≤◌, ◌<◌, String, ◌≡◌, refl, ap, Bool, true, false, ◌&&◌, not, string_eq,
  if◌then◌else◌, some, List, [], ◌∷◌, ◌++◌, HashMap, get, insert, contains, In, get-insert, length,
  length-append, arith, Bool-cases, Option-cases, inl, inr, concat, beq_self,
}
use lore_auth_bridge.Memory.State.{State}
use lore_auth_bridge.Memory.Helpers.{group_label}
use lore_auth_bridge.Memory.Nesting.{
  Edges, is_some, visit_parents, seed_paths, paths_loop, group_paths_for_user,
  direct_group_ids_for_user,
}

-- Entries whose parent has no path.
missing : Edges → HashMap String String → ℕ
missing [] paths = 0
missing ((p, ms) ∷ rest) paths = (if is_some (get paths p) then 0 else 1) + missing rest paths

missing-le : (edges : Edges) (paths : HashMap String String) → missing edges paths ≤ length edges
unfolding missing
missing-le [] paths = omega arith
missing-le ((p, ms) ∷ rest) paths = ground (arith, missing-le rest paths)

missing-insert-le :
    (edges : Edges) (paths : HashMap String String) (g label : String)
    → missing edges (insert paths g label) ≤ missing edges paths
unfolding missing
missing-insert-le [] paths g label = omega arith
missing-insert-le ((p, ms) ∷ rest) paths g label =
    ground (arith, get-insert paths g p label, missing-insert-le rest paths g label)

-- A parent of the map that gets its path lowers the count.
missing-insert-lt :
    (edges : Edges) (paths : HashMap String String) (ms : List String) (g label : String)
    → In (g, ms) edges
    → is_some (get paths g) ≡ false
    → missing edges (insert paths g label) < missing edges paths
unfolding missing
missing-insert-lt [] paths ms g label i h = absurd i
missing-insert-lt ((p, ns) ∷ rest) paths ms g label (inl q) h = ground (
  arith,
  ap (λ (t : String × List String). t.0) q,
  beq_self p,
  get-insert paths g p label,
  missing-insert-le rest paths g label,
)
missing-insert-lt ((p, ns) ∷ rest) paths ms g label (inr i) h =
    ground (arith, get-insert paths g p label, missing-insert-lt rest paths ms g label i h)

-- The condition in the `for` loop, and the path that a parent gets.
joins : String → List String → String → HashMap String String → Bool
joins p ms child paths = contains ms child && not (is_some (get paths p))

path_to : State → String → String → String
path_to state child_path p = concat (child_path ∷ " -> " ∷ group_label state p ∷ [])

module _ (state : State) (p : String) (ms : List String) (rest : Edges) (child child_path : String)
    (paths : HashMap String String) (queue : List String) where
  visit-join :
      joins p ms child paths ≡ true
      → visit_parents state ((p, ms) ∷ rest) child child_path paths queue
        ≡ visit_parents state rest child child_path
            (insert paths p (path_to state child_path p))
            (queue ++ p ∷ [])
  unfolding visit_parents joins path_to
  visit-join e = rw e refl

  visit-skip :
      joins p ms child paths ≡ false
      → visit_parents state ((p, ms) ∷ rest) child child_path paths queue
        ≡ visit_parents state rest child child_path paths queue
  unfolding visit_parents joins
  visit-skip e = rw e refl

  joins-new : joins p ms child paths ≡ true → is_some (get paths p) ≡ false
  unfolding joins
  joins-new e = ground (arith, e)

-- A visit adds to the queue no more than it takes from the count.
visit_parents-le :
    (state : State) (all edges : Edges) (child child_path : String) (paths : HashMap String String)
    (queue : List String)
    → ((e : String × List String) → In e edges → In e all)
    → length (visit_parents state edges child child_path paths queue).1
        + missing all (visit_parents state edges child child_path paths queue).0
      ≤ length queue + missing all paths
visit_parents-le state all [] child child_path paths queue sub = unfold visit_parents in omega arith
visit_parents-le state all ((p, ms) ∷ rest) child child_path paths queue sub =
    elim (Bool-cases (joins p ms child paths)) [
      | inl e ↦
          let new = path_to state child_path p in
          rw (visit-join state p ms rest child child_path paths queue e) (
            omega (
              arith,
              visit_parents-le state all rest child child_path (insert paths p new)
                  (queue ++ p ∷ []) (λ x i. sub x (inr i)),
              length-append queue (p ∷ []),
              missing-insert-lt all paths ms p new (sub (p, ms) (inl refl))
                  (joins-new state p ms rest child child_path paths queue e),
            ))
      | inr e ↦
          rw (visit-skip state p ms rest child child_path paths queue e)
            (visit_parents-le state all rest child child_path paths queue (λ x i. sub x (inr i)))
    ]

-- The loop ends, where the fuel is more than the queue and the parents without a path.
paths_loop-finishes :
    (fuel : ℕ) (state : State) (paths : HashMap String String) (queue : List String)
    → length queue + missing state.group_groups paths < fuel
    → (m : HashMap String String) × (paths_loop fuel state paths queue ≡ some m)
unfolding paths_loop
paths_loop-finishes zero state paths queue h = absurd (omega arith)
paths_loop-finishes (suc fuel) state paths [] h = (paths, unfold paths_loop in refl)
paths_loop-finishes (suc fuel) state paths (child ∷ queue) h =
    elim (Option-cases (get paths child)) [
      | inl e ↦
          let (m, q) = paths_loop-finishes fuel state paths queue (omega arith) in
          (m, rw (paths_loop, e) q)
      | inr (path, e) ↦
          let after = visit_parents state state.group_groups child path paths queue in
          let (m, q) = paths_loop-finishes fuel state after.0 after.1 (
            omega (
              arith,
              visit_parents-le state state.group_groups state.group_groups child path paths queue
                  (λ x i. i),
            )) in
          (m, rw (paths_loop, e) q)
    ]

-- `group_paths_for_user` ends: its `while` loop runs at most as often as there are direct groups of the
-- user and entries of the nesting together, and once more, and what it holds then is the answer.
pub group_paths_for_user-finishes :
    (state : State) (user_id : String)
    → (m : HashMap String String) × (paths_loop
          (suc (
            length (seed_paths state (direct_group_ids_for_user state user_id) [] []).1
            + length state.group_groups))
          state
          (seed_paths state (direct_group_ids_for_user state user_id) [] []).0
          (seed_paths state (direct_group_ids_for_user state user_id) [] []).1
        ≡ some m)
      × (group_paths_for_user state user_id ≡ m)
unfolding group_paths_for_user
group_paths_for_user-finishes state user_id =
    let seeded = seed_paths state (direct_group_ids_for_user state user_id) [] [] in
    let (m, q) =
      paths_loop-finishes (suc (length seeded.1 + length state.group_groups)) state seeded.0
        seeded.1 (omega (arith, missing-le state.group_groups seeded.0)) in
    (m, q, rw q refl)
