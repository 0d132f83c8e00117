-- ===== src/Base/Maps.antt =====
-- `std::collections::HashMap` as an association list. The order of the list stands for the map's
-- iteration order, which Rust leaves open; a statement about `iter` or `values` holds for each.
use mathlib.Core.Path.{◌≡◌, refl, ap}
use mathlib.Core.Logic.{inl, inr, ◌≢◌}
use mathlib.Core.Option.{Option, none, some}
use mathlib.Core.List.{List, [], ◌∷◌, ◌++◌, map}
use native.Mathlib.Omega.{arith}
use lore_auth_bridge.Base.Tests.{Eq, ◌==◌, if◌then◌else◌, Bool-cases, beq_self}
use lore_auth_bridge.Base.Lists.{In}

abbrev pub HashMap : Type 0 → Type 0 → Type 0
HashMap K V = List (K × V)

module _ {K V : Type 0} where
  abbrev pub values : HashMap K V → List V
  values = map (λ e. e.1)

  abbrev pub keys : HashMap K V → List K
  keys = map (λ e. e.0)

module _ {K V : Type 0} ⦃e : Eq K⦄ where
  -- `m.get(k)`.
  unfoldable pub get : HashMap K V → K → Option V
  get [] k = none
  get ((j, v) ∷ m) k = let rest = get m k in if j == k then some v else rest

  -- `m.insert(k, v)`.
  unfoldable pub insert : HashMap K V → K → V → HashMap K V
  insert [] k v = (k, v) ∷ []
  insert ((j, w) ∷ m) k v = let rest = insert m k v in if j == k then (j, v) ∷ m else (j, w) ∷ rest

  -- `m.remove(k)`, `m.retain(..)` on a key.
  unfoldable pub remove : HashMap K V → K → HashMap K V
  remove [] k = []
  remove ((j, w) ∷ m) k = let rest = remove m k in if j == k then rest else (j, w) ∷ rest

  -- `if let Some(v) = m.get_mut(k) { *v = f(v) }`.
  unfoldable pub update : HashMap K V → K → (V → V) → HashMap K V
  unfolding get insert
  update m k f = elim (get m k) [ none ↦ m | some v ↦ insert m k (f v) ]

  -- `get` after `insert`, at every key.
  pub get-insert :
      (m : HashMap K V) (k j : K) (v : V)
      → get (insert m k v) j ≡ (if k == j then some v else get m j)
  unfolding get insert
  get-insert [] k j v = refl
  get-insert ((i, w) ∷ m) k j v =
      ground (arith, e.beq_iff k j, e.beq_iff i k, e.beq_iff i j, get-insert m k j v)

  pub get-insert_self : (m : HashMap K V) (k : K) (v : V) → get (insert m k v) k ≡ some v
  get-insert_self m k v = rw (get-insert m k k v, beq_self k)

  pub get-insert_ne : (m : HashMap K V) (k j : K) (v : V) → k ≢ j → get (insert m k v) j ≡ get m j
  get-insert_ne m k j v h = ground (arith, get-insert m k j v, e.beq_iff k j)

  pub get-remove :
      (m : HashMap K V) (k j : K) → get (remove m k) j ≡ (if k == j then none else get m j)
  unfolding get remove
  get-remove [] k j = ground arith
  get-remove ((i, w) ∷ m) k j =
      ground (arith, e.beq_iff k j, e.beq_iff i k, e.beq_iff i j, get-remove m k j)

  pub In-of_get : (m : HashMap K V) (k : K) (v : V) → get m k ≡ some v → In (k, v) m
  unfolding get
  In-of_get [] k v h = cc
  In-of_get ((j, w) ∷ m) k v h = elim (Bool-cases (j == k)) [
    | inl hit ↦ inl (ground (arith, e.beq_iff j k))
    | inr miss ↦ inr (In-of_get m k v (ground arith))
  ]

  -- Each key stands once: what a `HashMap` is.
  abbrev pub IsMap : HashMap K V → Type 0
  IsMap [] = Unit
  IsMap ((j, w) ∷ m) = (get m j ≡ none) × IsMap m

  pub get_of_In : (m : HashMap K V) (k : K) (v : V) → IsMap m → In (k, v) m → get m k ≡ some v
  unfolding get
  get_of_In [] k v u i = absurd i
  get_of_In ((j, w) ∷ m) k v u (inl q) =
      ground (arith, e.beq_iff j k, ap (λ (t : K × V). t.0) q, ap (λ (t : K × V). t.1) q)
  get_of_In ((j, w) ∷ m) k v u (inr i) = ground (arith, e.beq_iff j k, get_of_In m k v u.1 i)

  pub insert-IsMap : (m : HashMap K V) (k : K) (v : V) → IsMap m → IsMap (insert m k v)
  unfolding get insert
  insert-IsMap [] k v u = (refl, tt)
  insert-IsMap ((j, w) ∷ m) k v u =
      ground (arith, e.beq_iff j k, e.beq_iff k j, get-insert m k j v, insert-IsMap m k v u.1)

  pub remove-IsMap : (m : HashMap K V) (k : K) → IsMap m → IsMap (remove m k)
  unfolding get remove
  remove-IsMap [] k u = tt
  remove-IsMap ((j, w) ∷ m) k u = ground (arith, get-remove m k j, remove-IsMap m k u.1)

-- `.get(k).cloned().unwrap_or_default()` where the values are vectors.
module _ {K A : Type 0} ⦃e : Eq K⦄ where
  unfoldable pub get_or_empty : HashMap K (List A) → K → List A
  get_or_empty m k = elim (get m k) [ none ↦ [] | some l ↦ l ]

  -- `.entry(k).or_default().push(a)`.
  unfoldable pub push_entry : HashMap K (List A) → K → A → HashMap K (List A)
  unfolding get_or_empty insert
  push_entry m k a = insert m k (get_or_empty m k ++ a ∷ [])

  pub get_or_empty-insert :
      (m : HashMap K (List A)) (k j : K) (l : List A)
      → get_or_empty (insert m k l) j ≡ (if k == j then l else get_or_empty m j)
  unfolding get_or_empty
  get_or_empty-insert m k j l = ground (arith, get-insert m k j l)
