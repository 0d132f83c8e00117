-- ===== src/Memory/Nesting/Closure.antt =====
-- What the collected groups of a user are: the direct groups, and all that hold one of them.

use lore_auth_bridge.Base.{
  ℕ, zero, suc, String, ◌≡◌, ◌↔◌, refl, sym, subst, ◌∙◌, Bool, true, false, ◌||◌, string_eq, none,
  some, List, [], ◌∷◌, get, get_or_empty, length, In, arith, Bool-cases, Option-cases, inl, inr,
  IsMap, get_of_In, In-of_get,
}
use lore_auth_bridge.Memory.State.{State}
use lore_auth_bridge.Memory.Nesting.{
  Edges, joins, widen, widen_loop, member_groups, direct_group_ids_for_user, or_default,
}
use lore_auth_bridge.Memory.Nesting.Relation.{Nested, here, down}
use lore_auth_bridge.Memory.Nesting.Widen.{
  outside-le, widen_loop-total, widen_stable, widen_loop-zero, widen_loop-again, widen_loop-done,
  joins-any, get_or_empty-eq, IsUpward,
}

-- What the groups reach, they reach from the ones they began with.
abbrev IsAbove : Edges → List String → List String → Type 0
IsAbove edges base groups = (g : String) → In g groups → (d : String) × In d base × Nested edges g d

widen-IsAbove :
    (edges part : Edges) (base groups : List String) (changed : Bool)
    → IsMap edges
    → ((e : String × List String) → In e part → In e edges)
    → IsAbove edges base groups
    → IsAbove edges base (widen part groups changed).0
unfolding widen
widen-IsAbove edges [] base groups changed u sub a = a
widen-IsAbove edges ((p, ms) ∷ rest) base groups changed u sub a =
    elim (Bool-cases (joins groups p ms)) [
      | inl e ↦
          rw (e, widen)
            (widen-IsAbove edges rest base (p ∷ groups) (changed || true) u (λ x i. sub x (inr i))
              (joined (joins-any groups p ms e)))
      | inr e ↦
          rw (e, widen)
            (widen-IsAbove edges rest base groups (changed || false) u (λ x i. sub x (inr i)) a)
    ]
  where
    members : get_or_empty edges p ≡ ms
    members = get_or_empty-eq edges p ms (get_of_In edges p ms u (sub (p, ms) (inl refl)))

    joined : (m : String) × In m ms × In m groups → IsAbove edges base (p ∷ groups)
    joined (m, i, j) g (inl q) =
        let (d, k, n) = a m j in
        (d, k, subst (λ t. Nested edges t d) (sym q) (down (subst (In m) (sym members) i) n))
    joined w g (inr j) = a g j

widen_loop-IsAbove :
    (fuel : ℕ) (edges : Edges) (base groups : List String) {r : List String}
    → IsMap edges
    → IsAbove edges base groups
    → widen_loop fuel edges groups ≡ some r
    → IsAbove edges base r
widen_loop-IsAbove zero edges base groups u a h = cc (widen_loop-zero edges groups, h)
widen_loop-IsAbove (suc fuel) edges base groups u a h =
    elim (Bool-cases (widen edges groups false).1) [
      | inl e ↦
          widen_loop-IsAbove fuel edges base (widen edges groups false).0 u
            (widen-IsAbove edges edges base groups false u (λ x i. i) a)
            (sym (widen_loop-again fuel edges groups e) ∙ h)
      | inr e ↦
          let (same, up) = widen_stable edges groups e in
          subst (IsAbove edges base) (some-inj (sym (widen_loop-done fuel edges groups e same) ∙ h))
            a
    ]
  where
    some-inj : {x y : List String} → some x ≡ some y → x ≡ y
    some-inj q = cc q

-- An edge comes from an entry of the map.
In-entry :
    (edges : Edges) (g m : String)
    → In m (get_or_empty edges g)
    → (ms : List String) × In (g, ms) edges × In m ms
unfolding get_or_empty
In-entry edges g m i = elim (Option-cases (get edges g)) [
  | inl e ↦ absurd (subst (In m) (empty e) i)
  | inr (ms, e) ↦ (ms, In-of_get edges g ms e, subst (In m) (get_or_empty-eq edges g ms e) i)
]
  where
    empty : get edges g ≡ none → get_or_empty edges g ≡ []
    empty e = rw (e, get_or_empty)

IsUpward-Nested :
    (edges : Edges) (r : List String)
    → IsUpward edges r
    → {g d : String} → Nested edges g d
    → In d r
    → In g r
IsUpward-Nested edges r up here i = i
IsUpward-Nested edges r up (down {g} {m} j n) i =
    let (ms, k, l) = In-entry edges g m j in up g ms k m l (IsUpward-Nested edges r up n i)

-- Where the nesting has one entry for each group, a user's groups are exactly those in which one of the
-- user's direct groups is nested, at any depth.
pub member_groups_iff :
    (state : State) (user_id g : String)
    → IsMap state.group_groups
    → In g (member_groups state user_id) ↔ (
        (d : String) × In d (direct_group_ids_for_user state user_id)
        × Nested state.group_groups g d)
unfolding member_groups
member_groups_iff state user_id g u =
    let edges = state.group_groups in
    let base = direct_group_ids_for_user state user_id in
    let (r, e, up, grow) =
      widen_loop-total (suc (length edges)) edges base (omega (arith, outside-le edges base)) in
    rw (e, or_default)
      (
        widen_loop-IsAbove (suc (length edges)) edges base base u (λ d i. (d, i, here)) e g,
        λ (d, i, n). IsUpward-Nested edges r up n (grow d i),
      )
