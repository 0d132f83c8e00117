-- ===== src/Memory/Groups/Links.antt =====
-- What a history of calls of memory/groups.rs makes of the edges of the nesting.
use lore_auth_bridge.Base.{
  String, ◌≡◌, ◌≢◌, ◌⊎◌, sym, subst, ap, ◌∙◌, inl, inr, true, ◌==◌, string_eq, Option-cases,
  Bool-cases, get, contains, contains-In, remove_first, push_entry, insert, get_or_empty, In,
  Distinct-remove_first, beq_self, ok, List, [], ◌∷◌, arith,
}
use lore_auth_bridge.Memory.State.{State, World}
use lore_auth_bridge.Memory.Helpers.{resolve_group_id}
use lore_auth_bridge.Memory.Nesting.{group_group_would_cycle}
use lore_auth_bridge.Memory.Groups.{
  nest_group, unnest_group, nest_ids, unnest_ids, add_group_group, remove_group_group,
}
use lore_auth_bridge.Memory.Groups.Edges.{resolved_ok}
use lore_auth_bridge.Memory.Groups.Acyclic.{
  NestingCall, nest, unnest, call, run, after_put, after_nest, after_unnest, get_or_empty-some,
}
use lore_auth_bridge.Memory.Groups.Members.{
  IsDistinct, push_entry-IsDistinct, insert-IsDistinct, Adds, TakesAway, push_entry-Adds, same-Adds,
  insert-TakesAway,
}

-- A nesting that succeeds finds the edge, or adds it.
nest_ids_ok :
    (s t : State) (p m : String)
    → nest_ids s p m ≡ ok t
    → (p ≢ m)
      × ((In m (get_or_empty s.group_groups p) × (s ≡ t))
          ⊎ ((¬ In m (get_or_empty s.group_groups p))
              × (t.group_groups ≡ push_entry s.group_groups p m)))
unfolding nest_ids
nest_ids_ok s t p m h = elim (Bool-cases (p == m)) [
  | inl e ↦ cc (rw (e, nest_ids) at h)
  | inr e ↦
      let differ : p ≢ m = λ q. cc (e, subst (λ k. (p == k) ≡ true) q (beq_self p)) in
      elim (Bool-cases (contains (get_or_empty s.group_groups p) m)) [
        | inl f ↦ (
          differ,
          inl ((contains-In (get_or_empty s.group_groups p) m).0 f, ground (arith, e, f)),
        )
        | inr f ↦
            let new : ¬ In m (get_or_empty s.group_groups p) =
              λ i. cc (f, (contains-In (get_or_empty s.group_groups p) m).1 i) in
            elim (Bool-cases (group_group_would_cycle s p m)) [
              | inl g ↦ cc (rw (e, f, g, nest_ids) at h)
              | inr g ↦ (differ, inr (new, ground (arith, e, f, g)))
            ]
      ]
]

-- An edge that is removed was there.
unnest_ids_ok :
    (s t : State) (p m : String)
    → unnest_ids s p m ≡ ok t
    → In m (get_or_empty s.group_groups p)
      × (t.group_groups ≡ insert s.group_groups p (remove_first (get_or_empty s.group_groups p) m))
unfolding unnest_ids
unnest_ids_ok s t p m h = elim (Option-cases (get s.group_groups p)) [
  | inl e ↦ cc (rw (e, unnest_ids) at h)
  | inr (ms, e) ↦ elim (Bool-cases (contains ms m)) [
    | inl f ↦
        let same = get_or_empty-some s.group_groups p ms e in
        let taken : t.group_groups ≡ insert s.group_groups p (remove_first ms m) =
          ground (arith, e, f) in
        (
          subst (In m) (sym same) ((contains-In ms m).0 f),
          taken ∙ ap (λ l. insert s.group_groups p (remove_first l m)) (sym same),
        )
    | inr f ↦ cc (rw (e, f, unnest_ids) at h)
  ]
]

nest_group-IsDistinct :
    (s t : State) (parent member : String)
    → IsDistinct s.group_groups
    → nest_group s parent member ≡ ok t
    → IsDistinct t.group_groups
unfolding nest_group
nest_group-IsDistinct s t parent member d h =
    let (p, m, _, _, e) =
      resolved_ok (resolve_group_id s parent) (resolve_group_id s member) (nest_ids s) t h in
    elim (nest_ids_ok s t p m e).1 [
      | inl (_, same) ↦ subst (λ (k : State). IsDistinct k.group_groups) same d
      | inr (new, pushed) ↦
          subst IsDistinct (sym pushed) (push_entry-IsDistinct s.group_groups p m new d)
    ]

unnest_group-IsDistinct :
    (s t : State) (parent member : String)
    → IsDistinct s.group_groups
    → unnest_group s parent member ≡ ok t
    → IsDistinct t.group_groups
unfolding unnest_group
unnest_group-IsDistinct s t parent member d h =
    let (p, m, _, _, e) =
      resolved_ok (resolve_group_id s parent) (resolve_group_id s member) (unnest_ids s) t h in
    subst IsDistinct (sym (unnest_ids_ok s t p m e).1) (
      insert-IsDistinct s.group_groups p (remove_first (get_or_empty s.group_groups p) m)
        (Distinct-remove_first (get_or_empty s.group_groups p) m (d p)) d)

call-IsDistinct :
    (w : World) (c : NestingCall)
    → IsDistinct w.state.group_groups
    → IsDistinct (call c w).1.state.group_groups
call-IsDistinct w (nest p m) d =
    subst (λ (v : World). IsDistinct v.state.group_groups) (sym (after_nest w p m))
      (after_put (λ (s : State). IsDistinct s.group_groups) w (nest_group w.state p m) d
        (λ s e. nest_group-IsDistinct w.state s p m d e))
call-IsDistinct w (unnest p m) d =
    subst (λ (v : World). IsDistinct v.state.group_groups) (sym (after_unnest w p m))
      (after_put (λ (s : State). IsDistinct s.group_groups) w (unnest_group w.state p m) d
        (λ s e. unnest_group-IsDistinct w.state s p m d e))

run-IsDistinct :
    (w : World) (cs : List NestingCall)
    → IsDistinct w.state.group_groups
    → IsDistinct (run w cs).state.group_groups
unfolding run
run-IsDistinct w [] d = d
run-IsDistinct w (c ∷ cs) d = run-IsDistinct (call c w).1 cs (call-IsDistinct w c d)

-- Nothing but the edges differs.
abbrev pub IsSameBesides : State → State → Type 0
IsSameBesides s t = t ≡ record s { group_groups = t.group_groups }

nest_ids-IsSameBesides : (s t : State) (p m : String) → nest_ids s p m ≡ ok t → IsSameBesides s t
unfolding nest_ids
nest_ids-IsSameBesides s t p m h = ground (arith, h)

unnest_ids-IsSameBesides :
    (s t : State) (p m : String) → unnest_ids s p m ≡ ok t → IsSameBesides s t
unfolding unnest_ids
unnest_ids-IsSameBesides s t p m h = ground (arith, h)

-- The two names of a call stand for the groups of an edge that the call adds, or removes.
abbrev pub Links : NestingCall → State → State → Type 0
Links (nest parent member) s t =
    (p : String) × (m : String) × (resolve_group_id s parent ≡ ok p)
    × (resolve_group_id s member ≡ ok m)
    × (p ≢ m)
    × Adds p m s.group_groups t.group_groups
    × IsSameBesides s t
Links (unnest parent member) s t =
    (p : String) × (m : String) × (resolve_group_id s parent ≡ ok p)
    × (resolve_group_id s member ≡ ok m)
    × In m (get_or_empty s.group_groups p)
    × TakesAway p m s.group_groups t.group_groups
    × IsSameBesides s t

nest_group-Links :
    (s t : State) (parent member : String)
    → nest_group s parent member ≡ ok t
    → Links (nest parent member) s t
unfolding nest_group
nest_group-Links s t parent member h =
    let (p, m, a, b, e) =
      resolved_ok (resolve_group_id s parent) (resolve_group_id s member) (nest_ids s) t h in
    let (differ, how) = nest_ids_ok s t p m e in
    let adds : Adds p m s.group_groups t.group_groups = elim how [
      | inl (there, same) ↦
          subst (λ (k : State). Adds p m s.group_groups k.group_groups) same
            (same-Adds s.group_groups p m there)
      | inr (_, pushed) ↦
          subst (Adds p m s.group_groups) (sym pushed) (push_entry-Adds s.group_groups p m)
    ] in
    (p, m, a, b, differ, adds, nest_ids-IsSameBesides s t p m e)

unnest_group-Links :
    (s t : State) (parent member : String)
    → IsDistinct s.group_groups
    → unnest_group s parent member ≡ ok t
    → Links (unnest parent member) s t
unfolding unnest_group
unnest_group-Links s t parent member d h =
    let (p, m, a, b, e) =
      resolved_ok (resolve_group_id s parent) (resolve_group_id s member) (unnest_ids s) t h in
    let (there, taken) = unnest_ids_ok s t p m e in
    (
      p,
      m,
      a,
      b,
      there,
      subst (TakesAway p m s.group_groups) (sym taken) (insert-TakesAway s.group_groups p m d),
      unnest_ids-IsSameBesides s t p m e,
    )

nest-inverse :
    (w v : World) (parent member : String)
    → add_group_group parent member w ≡ (ok tt, v)
    → nest_group w.state parent member ≡ ok v.state
unfolding add_group_group
nest-inverse w v parent member h = ground arith

unnest-inverse :
    (w v : World) (parent member : String)
    → remove_group_group parent member w ≡ (ok tt, v)
    → unnest_group w.state parent member ≡ ok v.state
unfolding remove_group_group
unnest-inverse w v parent member h = ground arith

call-Links :
    (c : NestingCall) (w v : World)
    → IsDistinct w.state.group_groups
    → call c w ≡ (ok tt, v)
    → Links c w.state v.state
call-Links (nest parent member) w v d h =
    nest_group-Links w.state v.state parent member (nest-inverse w v parent member h)
call-Links (unnest parent member) w v d h =
    unnest_group-Links w.state v.state parent member d (unnest-inverse w v parent member h)

-- After any history of `add_group_group` and `remove_group_group` calls, failing ones included, from a
-- store in which no group lists a member twice: a nesting that succeeds is of two different groups, and
-- afterwards the edges are those before and the one from its parent to its member; an unnesting that
-- succeeds finds its edge, and afterwards the edges are those before without that one. Nothing else of
-- the state changes.
pub call-Links_after_run :
    (w v : World) (cs : List NestingCall) (c : NestingCall)
    → IsDistinct w.state.group_groups
    → call c (run w cs) ≡ (ok tt, v)
    → Links c (run w cs).state v.state
call-Links_after_run w v cs c d h = call-Links c (run w cs) v (run-IsDistinct w cs d) h
