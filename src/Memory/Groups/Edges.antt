-- ===== src/Memory/Groups/Edges.antt =====
-- The writes of memory/groups.rs as changes of the edges of the nesting.
use text.Mathlib.TextEquality.{eq_iff}
use lore_auth_bridge.Base.{
  String, ◌≡◌, refl, sym, subst, true, false, ◌==◌, string_eq, List, [], ◌∷◌, ◌++◌, Result, ok, err,
  get_or_empty, push_entry, insert, contains, In, In-append, Bool-cases, get_or_empty-insert, arith,
  ◌⊎◌, inl, inr, str_eq→eq,
}
use lore_auth_bridge.Memory.State.{State}
use lore_auth_bridge.Memory.Helpers.{resolve_group_id}
use lore_auth_bridge.Memory.Nesting.{Edges, group_group_would_cycle}
use lore_auth_bridge.Memory.Nesting.Relation.{Nested, here, down, Nested-trans, IsAcyclic}
use lore_auth_bridge.Memory.Groups.{nest_group, nest_ids}

module _ (edges : Edges) (p m g : String) where
  pub push_entry-hit :
      (p == g) ≡ true → get_or_empty (push_entry edges p m) g ≡ get_or_empty edges g ++ m ∷ []
  unfolding push_entry
  push_entry-hit e =
      ground (arith, get_or_empty-insert edges p g (get_or_empty edges p ++ m ∷ []), eq_iff p g)

  pub push_entry-miss :
      (p == g) ≡ false → get_or_empty (push_entry edges p m) g ≡ get_or_empty edges g
  unfolding push_entry
  push_entry-miss e = ground (arith, get_or_empty-insert edges p g (get_or_empty edges p ++ m ∷ []))

-- A nesting that succeeds adds no edge, or one that closes no cycle.
abbrev pub Nests : State → State → Type 0
Nests state after =
    (state ≡ after)
    ⊎ ((p : String) × (m : String) × (group_group_would_cycle state p m ≡ false)
        × (after.group_groups ≡ push_entry state.group_groups p m))

nest_ids-Nests :
    (state after : State) (p m : String) → nest_ids state p m ≡ ok after → Nests state after
unfolding nest_ids
nest_ids-Nests state after p m h = elim (Bool-cases (p == m)) [
  | inl e ↦ cc (rw (e, nest_ids) at h)
  | inr e ↦ elim (Bool-cases (contains (get_or_empty state.group_groups p) m)) [
    | inl f ↦ inl (ground arith)
    | inr f ↦ elim (Bool-cases (group_group_would_cycle state p m)) [
      | inl g ↦ cc (rw (e, f, g, nest_ids) at h)
      | inr g ↦ inr (p, m, g, ground arith)
    ]
  ]
]

-- A call that goes through both names, where it succeeds.
pub resolved_ok :
    {A : Type 0} (a b : Result String) (f : String → String → Result A) (x : A)
    → elim a as (λ _. Result A) [
      | err e ↦ err e
      | ok p ↦ elim b as (λ _. Result A) [ err e ↦ err e | ok m ↦ f p m ]
    ]
      ≡ ok x
    → (p : String) × (m : String) × (a ≡ ok p) × (b ≡ ok m) × (f p m ≡ ok x)
resolved_ok (ok p) (ok m) f x h = (p, m, refl, refl, h)
resolved_ok (ok p) (err e) f x h = cc
resolved_ok (err e) b f x h = cc

pub nest_group-Nests :
    (state after : State) (parent member : String)
    → nest_group state parent member ≡ ok after
    → Nests state after
unfolding nest_group
nest_group-Nests state after parent member h =
    let (p, m, _, _, e) =
      resolved_ok (resolve_group_id state parent) (resolve_group_id state member) (nest_ids state)
        after h in
    nest_ids-Nests state after p m e

-- An edge after `push` is an old one, or the new one.
pub In-push_entry :
    (edges : Edges) (p m g x : String)
    → In x (get_or_empty (push_entry edges p m) g)
    → In x (get_or_empty edges g) ⊎ ((g ≡ p) × (x ≡ m))
In-push_entry edges p m g x i = elim (Bool-cases (p == g)) [
  | inl e ↦
      elim (In-append x (get_or_empty edges g) (m ∷ [])
        (subst (In x) (push_entry-hit edges p m g e) i)) [
          | inl j ↦ inl j
          | inr (inl q) ↦ inr (sym (str_eq→eq p g e), q)
          | inr (inr j) ↦ absurd j
        ]
  | inr e ↦ inl (subst (In x) (push_entry-miss edges p m g e) i)
]

-- A way down after `push` is an old one, or goes over the new edge.
Nested-push_entry :
    (edges : Edges) (p m : String) {x y : String}
    → Nested (push_entry edges p m) x y
    → Nested edges x y ⊎ (Nested edges x p × Nested edges m y)
Nested-push_entry edges p m here = inl here
Nested-push_entry edges p m (down {g} {m = k} {h = y} i n) =
    over (In-push_entry edges p m g k i) (Nested-push_entry edges p m n)
  where
    over :
        In k (get_or_empty edges g) ⊎ ((g ≡ p) × (k ≡ m))
        → Nested edges k y ⊎ (Nested edges k p × Nested edges m y)
        → Nested edges g y ⊎ (Nested edges g p × Nested edges m y)
    over (inl j) (inl r) = inl (down j r)
    over (inl j) (inr (a, b)) = inr (down j a, b)
    over (inr (e, q)) (inl r) =
        inr (subst (λ t. Nested edges t p) (sym e) here, subst (λ t. Nested edges t y) q r)
    over (inr (e, q)) (inr (a, b)) = inr (subst (λ t. Nested edges t p) (sym e) here, b)

-- A new edge whose parent is not nested in the member makes no cycle.
pub push_entry-IsAcyclic :
    (edges : Edges) (p m : String)
    → ¬ Nested edges m p
    → IsAcyclic edges
    → IsAcyclic (push_entry edges p m)
push_entry-IsAcyclic edges p m apart acyclic g x i n =
    closes (In-push_entry edges p m g x i) (Nested-push_entry edges p m n)
  where
    closes :
        In x (get_or_empty edges g) ⊎ ((g ≡ p) × (x ≡ m))
        → Nested edges x g ⊎ (Nested edges x p × Nested edges m g)
        → ⊥
    closes (inl j) (inl r) = acyclic g x j r
    closes (inl j) (inr (a, b)) = apart (Nested-trans b (down j a))
    closes (inr (e, q)) (inl r) =
        apart (subst (Nested edges m) e (subst (λ t. Nested edges t g) q r))
    closes (inr (e, q)) (inr (a, b)) = apart (subst (λ t. Nested edges t p) q a)

pub insert-hit :
    (edges : Edges) (p g : String) (ms : List String)
    → (p == g) ≡ true
    → get_or_empty (insert edges p ms) g ≡ ms
insert-hit edges p g ms e = ground (arith, get_or_empty-insert edges p g ms)

pub insert-miss :
    (edges : Edges) (p g : String) (ms : List String)
    → (p == g) ≡ false
    → get_or_empty (insert edges p ms) g ≡ get_or_empty edges g
insert-miss edges p g ms e = ground (arith, get_or_empty-insert edges p g ms)

-- Fewer members make no cycle.
pub insert-IsAcyclic :
    (edges : Edges) (p : String) (ms : List String)
    → ((x : String) → In x ms → In x (get_or_empty edges p))
    → IsAcyclic edges
    → IsAcyclic (insert edges p ms)
insert-IsAcyclic edges p ms fewer acyclic g x i n = acyclic g x (old g x i) (older n)
  where
    old : (h y : String) → In y (get_or_empty (insert edges p ms) h) → In y (get_or_empty edges h)
    old h y j = elim (Bool-cases (p == h)) [
      | inl e ↦
          subst (λ t. In y (get_or_empty edges t)) (str_eq→eq p h e)
            (fewer y (subst (In y) (insert-hit edges p h ms e) j))
      | inr e ↦ subst (In y) (insert-miss edges p h ms e) j
    ]

    older : {h y : String} → Nested (insert edges p ms) h y → Nested edges h y
    older here = here
    older (down {g} {m} j r) = down (old g m j) (older r)
