-- ===== src/Memory/Nesting/Cycle.antt =====
-- `group_group_would_cycle` ends, and decides whether the parent is nested in the member.
use lore_auth_bridge.Base.{
  ℕ, zero, suc, ◌+◌, ◌≤◌, ◌<◌, String, ◌≡◌, ◌↔◌, refl, Bool, true, false, ◌==◌, string_eq,
  if◌then◌else◌, some, List, [], ◌∷◌, get, get_or_empty, contains, length, In, arith, Bool-cases,
  contains-In, str_eq→eq, subst, sym, inl, inr, ◌⊎◌,
}
use text.Mathlib.TextEquality.{eq_iff}
use lore_auth_bridge.Memory.State.{State}
use lore_auth_bridge.Memory.Nesting.{
  Edges, edge_count, push_all, cycle_loop, group_group_would_cycle,
}
use lore_auth_bridge.Memory.Nesting.Relation.{Nested, here, down}

length-push_all : (ms st : List String) → length (push_all ms st) ≡ length ms + length st
unfolding push_all
length-push_all [] st = omega arith
length-push_all (m ∷ ms) st = omega (arith, length-push_all ms (m ∷ st))

In-push_all : (x : String) (ms st : List String) → In x (push_all ms st) ↔ (In x ms ⊎ In x st)
unfolding push_all
In-push_all x [] st = (inr, elim [ inl i ↦ absurd i | inr i ↦ i ])
In-push_all x (m ∷ ms) st = (
  λ i. elim ((In-push_all x ms (m ∷ st)).0 i) [
    | inl j ↦ inl (inr j)
    | inr (inl e) ↦ inl (inl e)
    | inr (inr j) ↦ inr j
  ],
  elim [
    | inl (inl e) ↦ (In-push_all x ms (m ∷ st)).1 (inr (inl e))
    | inl (inr j) ↦ (In-push_all x ms (m ∷ st)).1 (inl j)
    | inr j ↦ (In-push_all x ms (m ∷ st)).1 (inr (inr j))
  ],
)

-- The members that stand under groups which the walk has not seen.
unseen : Edges → List String → ℕ
unseen [] seen = 0
unseen ((g, ms) ∷ rest) seen = (if contains seen g then 0 else length ms) + unseen rest seen

unseen-nil : (edges : Edges) → unseen edges [] ≡ edge_count edges
unfolding unseen edge_count contains
unseen-nil [] = refl
unseen-nil ((g, ms) ∷ rest) = omega (arith, unseen-nil rest)

unseen-cons-le :
    (edges : Edges) (g : String) (seen : List String) → unseen edges (g ∷ seen) ≤ unseen edges seen
unfolding unseen contains
unseen-cons-le [] g seen = omega arith
unseen-cons-le ((h, ms) ∷ rest) g seen = ground (arith, unseen-cons-le rest g seen)

-- A group seen for the first time takes its members out of the count.
unseen-cons :
    (edges : Edges) (g : String) (seen : List String)
    → contains seen g ≡ false
    → length (get_or_empty edges g) + unseen edges (g ∷ seen) ≤ unseen edges seen
unfolding unseen contains get_or_empty get
unseen-cons [] g seen h = omega arith
unseen-cons ((k, ms) ∷ rest) g seen h =
    ground (arith, eq_iff k g, eq_iff g k, unseen-cons rest g seen h, unseen-cons-le rest g seen)

-- One round of the loop, by what it finds.
cycle_loop-total :
    (fuel : ℕ) (edges : Edges) (parent : String) (seen stack : List String)
    → length stack + unseen edges seen < fuel
    → (b : Bool) × (cycle_loop fuel edges parent seen stack ≡ some b)
unfolding cycle_loop
cycle_loop-total zero edges parent seen stack h = absurd (omega arith)
cycle_loop-total (suc fuel) edges parent seen [] h = (false, refl)
cycle_loop-total (suc fuel) edges parent seen (g ∷ stack) h = elim (Bool-cases (g == parent)) [
  | inl e ↦ (true, rw e)
  | inr e ↦ elim (Bool-cases (contains seen g)) [
    | inl old ↦ rw (e, old) (cycle_loop-total fuel edges parent seen stack (omega arith))
    | inr new ↦
        rw (e, new)
          (cycle_loop-total fuel edges parent (g ∷ seen) (push_all (get_or_empty edges g) stack) (
            omega
              (arith, unseen-cons edges g seen new, length-push_all (get_or_empty edges g) stack)))
  ]
]

-- The answer `true` comes with a way down from a group on the stack.
cycle_loop_sound :
    (fuel : ℕ) (edges : Edges) (parent : String) (seen stack : List String)
    → cycle_loop fuel edges parent seen stack ≡ some true
    → (g : String) × In g stack × Nested edges g parent
unfolding cycle_loop
cycle_loop_sound zero edges parent seen stack h = cc
cycle_loop_sound (suc fuel) edges parent seen [] h = cc
cycle_loop_sound (suc fuel) edges parent seen (g ∷ stack) h = elim (Bool-cases (g == parent)) [
  | inl e ↦ (g, inl refl, subst (Nested edges g) (str_eq→eq g parent e) here)
  | inr e ↦ elim (Bool-cases (contains seen g)) [
    | inl old ↦
        let (x, i, n) = cycle_loop_sound fuel edges parent seen stack (ground arith) in
        (x, inr i, n)
    | inr new ↦
        let (x, i, n) =
          cycle_loop_sound fuel edges parent (g ∷ seen) (push_all (get_or_empty edges g) stack)
            (ground arith) in
        elim ((In-push_all x (get_or_empty edges g) stack).0 i) [
          | inl m ↦ (g, inl refl, down m n)
          | inr j ↦ (x, inr j, n)
        ]
  ]
]

-- Whatever the seen groups hold is seen, or waits on the stack.
abbrev Closed : Edges → List String → List String → Type 0
Closed edges seen stack =
    (g m : String) → In g seen → In m (get_or_empty edges g) → In m seen ⊎ In m stack

Closed-not-Nested :
    (edges : Edges) (seen : List String)
    → Closed edges seen []
    → {x parent : String} → ¬ In parent seen
    → In x seen
    → ¬ Nested edges x parent
Closed-not-Nested edges seen c p i here = p i
Closed-not-Nested edges seen c p i (down {g} {m} j n) = elim (c g m i j) [
  | inl k ↦ Closed-not-Nested edges seen c p k n
  | inr k ↦ absurd k
]

Closed-skip :
    (edges : Edges) (seen stack : List String) (g : String)
    → In g seen
    → Closed edges seen (g ∷ stack)
    → Closed edges seen stack
Closed-skip edges seen stack g old c h m i j = elim (c h m i j) [
  | inl k ↦ inl k
  | inr (inl e) ↦ inl (rw e old)
  | inr (inr k) ↦ inr k
]

Closed-visit :
    (edges : Edges) (seen stack : List String) (g : String)
    → Closed edges seen (g ∷ stack)
    → Closed edges (g ∷ seen) (push_all (get_or_empty edges g) stack)
Closed-visit edges seen stack g c h m (inl e) j = inr (
    (In-push_all m (get_or_empty edges g) stack).1
      (inl (subst (λ t. In m (get_or_empty edges t)) e j)))
Closed-visit edges seen stack g c h m (inr i) j = elim (c h m i j) [
  | inl k ↦ inl (inr k)
  | inr (inl e) ↦ inl (inl e)
  | inr (inr k) ↦ inr ((In-push_all m (get_or_empty edges g) stack).1 (inr k))
]

-- The answer `false` means that no group seen or on the stack holds the parent.
cycle_loop_complete :
    (fuel : ℕ) (edges : Edges) (parent : String) (seen stack : List String)
    → cycle_loop fuel edges parent seen stack ≡ some false
    → Closed edges seen stack
    → ¬ In parent seen
    → (x : String) → In x seen ⊎ In x stack
    → ¬ Nested edges x parent
unfolding cycle_loop
cycle_loop_complete zero edges parent seen stack h c p x i = cc
cycle_loop_complete (suc fuel) edges parent seen [] h c p x (inl i) =
    Closed-not-Nested edges seen c p i
cycle_loop_complete (suc fuel) edges parent seen [] h c p x (inr i) = absurd i
cycle_loop_complete (suc fuel) edges parent seen (g ∷ stack) h c p x i =
    elim (Bool-cases (g == parent)) [
      | inl e ↦ cc e
      | inr e ↦ elim (Bool-cases (contains seen g)) [
        | inl old ↦
            let seen_g = (contains-In seen g).0 old in
            cycle_loop_complete fuel edges parent seen stack (ground arith)
              (Closed-skip edges seen stack g seen_g c) p x
              (elim i [ inl k ↦ inl k | inr (inl q) ↦ inl (rw q seen_g) | inr (inr k) ↦ inr k ])
        | inr new ↦
            cycle_loop_complete fuel edges parent (g ∷ seen) (push_all (get_or_empty edges g) stack)
              (ground arith) (Closed-visit edges seen stack g c)
              (elim [ inl q ↦ cc (e, eq_of q) | inr k ↦ p k ]) x
              (elim i [
                | inl k ↦ inl (inr k)
                | inr (inl q) ↦ inl (inl q)
                | inr (inr k) ↦ inr ((In-push_all x (get_or_empty edges g) stack).1 (inr k))
              ])
      ]
    ]
  where
    eq_of : parent ≡ g → (g == parent) ≡ true
    eq_of q = (eq_iff g parent).1 (sym q)

cycle_loop_enough :
    (state : State) (member : String)
    → length (member ∷ []) + unseen state.group_groups []
      < suc (suc (edge_count state.group_groups))
cycle_loop_enough state member = omega (arith, unseen-nil state.group_groups)

-- `group_group_would_cycle` answers `true` exactly when the parent is the member or nested in it.
pub group_group_would_cycle_iff :
    (state : State) (parent member : String)
    → (group_group_would_cycle state parent member ≡ true) ↔ Nested state.group_groups member parent
unfolding group_group_would_cycle
group_group_would_cycle_iff state parent member =
    let (b, e) =
      cycle_loop-total (suc (suc (edge_count state.group_groups))) state.group_groups parent []
        (member ∷ []) (cycle_loop_enough state member) in
    rw e (answer b e)
  where
    answer :
        (b : Bool)
        → cycle_loop
            (suc (suc (edge_count state.group_groups)))
            state.group_groups
            parent
            []
            (member ∷ [])
          ≡ some b
        → (b ≡ true → Nested state.group_groups member parent)
          × (Nested state.group_groups member parent → b ≡ true)
    answer true e = (
      λ _.
          let (x, i, n) =
            cycle_loop_sound (suc (suc (edge_count state.group_groups))) state.group_groups parent
              [] (member ∷ []) e in
          elim i [ inl q ↦ subst (λ t. Nested state.group_groups t parent) q n | inr j ↦ absurd j ],
      λ _. refl,
    )
    answer false e = (
      λ q. cc q,
      λ n. absurd (
          cycle_loop_complete (suc (suc (edge_count state.group_groups))) state.group_groups parent
            [] (member ∷ []) e (λ _ _ i _. absurd i) (λ i. i) member (inr (inl refl)) n),
    )
