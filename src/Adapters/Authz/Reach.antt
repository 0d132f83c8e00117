-- ===== src/Adapters/Authz/Reach.antt =====
-- The groups that the tuples of authz.rs put a user in. The loop runs like the one of the in-memory
-- store over the nestings that the tuples state.
use lore_auth_bridge.Base.{
  ℕ, zero, suc, ◌≤◌, String, ◌≡◌, ◌↔◌, refl, sym, ap, subst, ◌∙◌, Bool, true, false, ◌&&◌, ◌||◌,
  not, string_eq, if◌then◌else◌, Option, none, some, List, [], ◌∷◌, In, length, contains,
  contains-In, any, arith, inl, inr, Bool-cases, Option-cases,
}
use lore_auth_bridge.Memory.Nesting.{Edges, joins, widen, widen_loop}
use lore_auth_bridge.Memory.Nesting.Widen.{
  outside-le, widen_loop-total, widen_loop-closed, IsUpward,
}
use lore_auth_bridge.Adapters.Authz.{
  Tuple, is_user_member, direct_ids, member_group, reach_pass, reach_loop,
  reachable_group_ids_from_tuples,
}

-- A user is in a group by a tuple that says so, or by one that nests a group of the user's in it.
pub data Reaches (tuples : List Tuple) (user_id : String) : String → Type 0 where
  direct :
      (t : Tuple)
      → In t tuples
      → is_user_member user_id t ≡ true
      → Reaches tuples user_id t.object_id
  above :
      (t : Tuple) (m : String)
      → In t tuples
      → member_group t ≡ some m
      → Reaches tuples user_id m
      → Reaches tuples user_id t.object_id

-- The nestings of the tuples.
add_edge : Tuple → Option String → Edges → Edges
add_edge t none edges = edges
add_edge t (some m) edges = (t.object_id, m ∷ []) ∷ edges

edges_of : List Tuple → Edges
edges_of [] = []
edges_of (t ∷ rest) = add_edge t (member_group t) (edges_of rest)

module _ (t : Tuple) (rest : List Tuple) where
  edges-skip : member_group t ≡ none → edges_of (t ∷ rest) ≡ edges_of rest
  unfolding edges_of add_edge
  edges-skip e = ap (λ o. add_edge t o (edges_of rest)) e

  edges-add :
      (m : String)
      → member_group t ≡ some m
      → edges_of (t ∷ rest) ≡ (t.object_id, m ∷ []) ∷ edges_of rest
  unfolding edges_of add_edge
  edges-add m e = ap (λ o. add_edge t o (edges_of rest)) e

edges_of-le : (tuples : List Tuple) → length (edges_of tuples) ≤ length tuples
edges_of-le [] = unfold edges_of in omega arith
edges_of-le (t ∷ rest) = elim (Option-cases (member_group t)) [
  | inl e ↦ omega (arith, edges_of-le rest, ap length (edges-skip t rest e))
  | inr (m, e) ↦ omega (arith, edges_of-le rest, ap length (edges-add t rest m e))
]

or_false : (b : Bool) → (b || false) ≡ b
or_false b = ground arith

module _ (t : Tuple) (rest : List Tuple) (groups : List String) (changed : Bool) where
  pass-skip :
      member_group t ≡ none → reach_pass (t ∷ rest) groups changed ≡ reach_pass rest groups changed
  unfolding reach_pass
  pass-skip e = rw (reach_pass, e) refl

  pass-add :
      (m : String)
      → member_group t ≡ some m
      → reach_pass (t ∷ rest) groups changed
        ≡ reach_pass rest
            (if joins groups t.object_id (m ∷ []) then t.object_id ∷ groups else groups)
            (changed || joins groups t.object_id (m ∷ []))
  unfolding reach_pass joins any
  pass-add m e = rw (reach_pass, e, or_false (contains groups m)) refl

reach_pass-widen :
    (tuples : List Tuple) (groups : List String) (changed : Bool)
    → reach_pass tuples groups changed ≡ widen (edges_of tuples) groups changed
reach_pass-widen [] groups changed = unfold reach_pass in unfold edges_of in unfold widen in refl
reach_pass-widen (t ∷ rest) groups changed = elim (Option-cases (member_group t)) [
  | inl e ↦
      pass-skip t rest groups changed e
      ∙ reach_pass-widen rest groups changed
      ∙ sym (ap (λ edges. widen edges groups changed) (edges-skip t rest e))
  | inr (m, e) ↦
      let joined = joins groups t.object_id (m ∷ []) in
      pass-add t rest groups changed m e
      ∙ reach_pass-widen rest (if joined then t.object_id ∷ groups else groups) (changed || joined)
      ∙ sym (ap (λ edges. widen edges groups changed) (edges-add t rest m e) ∙ unfold widen in refl)
]

reach_loop-widen_loop :
    (fuel : ℕ) (tuples : List Tuple) (groups : List String)
    → reach_loop fuel tuples groups ≡ widen_loop fuel (edges_of tuples) groups
unfolding reach_loop widen_loop
reach_loop-widen_loop zero tuples groups = refl
reach_loop-widen_loop (suc fuel) tuples groups =
    rw (reach_pass-widen tuples groups false)
      (rw (reach_loop-widen_loop fuel tuples (widen (edges_of tuples) groups false).0) refl)

In-edges_of :
    (tuples : List Tuple) (p : String) (ms : List String)
    → In (p, ms) (edges_of tuples)
    → (t : Tuple) × (m : String) × In t tuples
      × (member_group t ≡ some m)
      × (p ≡ t.object_id)
      × (ms ≡ m ∷ [])
In-edges_of [] p ms i = absurd (unfold edges_of in i)
In-edges_of (t ∷ rest) p ms i = elim (Option-cases (member_group t)) [
  | inl e ↦
      let (x, m, j, q, a, b) =
        In-edges_of rest p ms (subst (λ es. In (p, ms) es) (edges-skip t rest e) i) in
      (x, m, inr j, q, a, b)
  | inr (m, e) ↦ elim (subst (λ es. In (p, ms) es) (edges-add t rest m e) i) [
    | inl q ↦ (
      t,
      m,
      inl refl,
      e,
      ap (λ (z : String × List String). z.0) q,
      ap (λ (z : String × List String). z.1) q,
    )
    | inr k ↦ let (x, m', j, q, a, b) = In-edges_of rest p ms k in (x, m', inr j, q, a, b)
  ]
]

edges_of-In :
    (tuples : List Tuple) (t : Tuple) (m : String)
    → In t tuples
    → member_group t ≡ some m
    → In (t.object_id, m ∷ []) (edges_of tuples)
edges_of-In [] t m i e = absurd i
edges_of-In (x ∷ rest) t m (inl q) e =
    subst (λ es. In (t.object_id, m ∷ []) es)
      (sym (edges-add x rest m (sym (ap member_group q) ∙ e)))
      (inl (ap (λ (y : Tuple). (y.object_id, m ∷ [])) q))
edges_of-In (x ∷ rest) t m (inr i) e =
    let found = edges_of-In rest t m i e in
    elim (Option-cases (member_group x)) [
      | inl n ↦ subst (λ es. In (t.object_id, m ∷ []) es) (sym (edges-skip x rest n)) found
      | inr (k, n) ↦
          subst (λ es. In (t.object_id, m ∷ []) es) (sym (edges-add x rest k n)) (inr found)
    ]

abbrev IsDirect : List Tuple → String → String → Type 0
IsDirect tuples user_id g =
    (t : Tuple) × In t tuples × (is_user_member user_id t ≡ true) × (g ≡ t.object_id)

-- `direct_ids` at a tuple that adds its group, and at one that does not.
module _ (t : Tuple) (rest : List Tuple) (user_id : String) where
  abbrev adds : Bool
  adds = is_user_member user_id t && not (contains (direct_ids rest user_id) t.object_id)

  direct-add : adds ≡ true → direct_ids (t ∷ rest) user_id ≡ t.object_id ∷ direct_ids rest user_id
  unfolding direct_ids
  direct-add e = rw e refl

  direct-skip : adds ≡ false → direct_ids (t ∷ rest) user_id ≡ direct_ids rest user_id
  unfolding direct_ids
  direct-skip e = rw e refl

direct_ids-of :
    (tuples : List Tuple) (user_id g : String)
    → In g (direct_ids tuples user_id)
    → IsDirect tuples user_id g
direct_ids-of [] user_id g i = absurd (unfold direct_ids in i)
direct_ids-of (t ∷ rest) user_id g i = elim (Bool-cases (adds t rest user_id)) [
  | inl e ↦ elim (subst (λ ids. In g ids) (direct-add t rest user_id e) i) [
    | inl q ↦ (t, inl refl, ground (arith, e), q)
    | inr j ↦ let (x, k, a, q) = direct_ids-of rest user_id g j in (x, inr k, a, q)
  ]
  | inr e ↦
      let (x, k, a, q) =
        direct_ids-of rest user_id g (subst (λ ids. In g ids) (direct-skip t rest user_id e) i) in
      (x, inr k, a, q)
]

direct_ids-In :
    (tuples : List Tuple) (user_id : String) (t : Tuple)
    → In t tuples
    → is_user_member user_id t ≡ true
    → In t.object_id (direct_ids tuples user_id)
direct_ids-In [] user_id t i e = absurd i
direct_ids-In (x ∷ rest) user_id t (inl q) e =
    let holds : is_user_member user_id x ≡ true = sym (ap (is_user_member user_id) q) ∙ e in
    subst (λ (y : Tuple). In y.object_id (direct_ids (x ∷ rest) user_id)) (sym q)
      (elim (Bool-cases (contains (direct_ids rest user_id) x.object_id)) [
        | inl c ↦
            subst (λ ids. In x.object_id ids) (sym (direct-skip x rest user_id (ground (arith, c))))
              ((contains-In (direct_ids rest user_id) x.object_id).0 c)
        | inr c ↦
            subst (λ ids. In x.object_id ids)
              (sym (direct-add x rest user_id (ground (arith, c, holds)))) (inl refl)
      ])
direct_ids-In (x ∷ rest) user_id t (inr i) e =
    let found = direct_ids-In rest user_id t i e in
    elim (Bool-cases (adds x rest user_id)) [
      | inl a ↦ subst (λ ids. In t.object_id ids) (sym (direct-add x rest user_id a)) (inr found)
      | inr a ↦ subst (λ ids. In t.object_id ids) (sym (direct-skip x rest user_id a)) found
    ]

-- The groups that the tuples of a snapshot put a user in, by the loop of the code, are exactly those
-- that a tuple names for the user, and those in which a tuple nests such a group, at any depth.
pub reachable_group_ids_iff :
    (tuples : List Tuple) (user_id g : String)
    → In g (reachable_group_ids_from_tuples tuples user_id) ↔ Reaches tuples user_id g
unfolding reachable_group_ids_from_tuples
reachable_group_ids_iff tuples user_id g =
    let edges = edges_of tuples in
    let base = direct_ids tuples user_id in
    let (r, e, up, grow) =
      widen_loop-total (suc (length tuples)) edges base
        (omega (arith, outside-le edges base, edges_of-le tuples)) in
    rw (reach_loop-widen_loop (suc (length tuples)) tuples base, e)
      (
        widen_loop-closed (Reaches tuples user_id) edges (step tuples user_id) (suc (length tuples))
            base
            (λ d i.
              let (t, j, m, q) = direct_ids-of tuples user_id d i in
              subst (Reaches tuples user_id) (sym q) (direct t j m))
            e g,
        complete r up grow,
      )
  where
    step :
        (tuples : List Tuple) (user_id p : String) (ms : List String)
        → In (p, ms) (edges_of tuples)
        → (m : String) → In m ms
        → Reaches tuples user_id m
        → Reaches tuples user_id p
    step tuples user_id p ms i m j n =
        let (t, k, l, a, q, s) = In-edges_of tuples p ms i in
        subst (Reaches tuples user_id) (sym q) (elim (subst (λ xs. In m xs) s j) [
          | inl e ↦ above t k l a (subst (Reaches tuples user_id) e n)
          | inr z ↦ absurd z
        ])

    complete :
        (r : List String)
        → IsUpward (edges_of tuples) r
        → ((d : String) → In d (direct_ids tuples user_id) → In d r)
        → {h : String} → Reaches tuples user_id h
        → In h r
    complete r up grow (direct t i m) = grow t.object_id (direct_ids-In tuples user_id t i m)
    complete r up grow (above t m i e n) =
        up t.object_id (m ∷ []) (edges_of-In tuples t m i e) m (inl refl) (complete r up grow n)
