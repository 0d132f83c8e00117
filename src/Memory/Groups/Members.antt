-- ===== src/Memory/Groups/Members.antt =====
-- What add_group_group and remove_group_group of memory/groups.rs do to the set of the edges.
use lore_auth_bridge.Base.{
  String, ◌≡◌, ◌↔◌, ◌⊎◌, sym, subst, inl, inr, true, ◌==◌, string_eq, Bool-cases, remove_first,
  push_entry, insert, get_or_empty, In, In-append_left, In-append_right, Distinct, Distinct-append,
  not-In-remove_first, In-remove_first, In-remove_first_other, str_eq→eq, beq_self, List, [], ◌∷◌,
}
use lore_auth_bridge.Memory.Nesting.{Edges}
use lore_auth_bridge.Memory.Groups.Edges.{
  push_entry-hit, push_entry-miss, insert-hit, insert-miss, In-push_entry,
}

-- No group lists a member twice.
abbrev pub IsDistinct : Edges → Type 0
IsDistinct edges = (g : String) → Distinct (get_or_empty edges g)

pub push_entry-IsDistinct :
    (edges : Edges) (p m : String)
    → (¬ In m (get_or_empty edges p))
    → IsDistinct edges
    → IsDistinct (push_entry edges p m)
push_entry-IsDistinct edges p m new d g = elim (Bool-cases (p == g)) [
  | inl e ↦
      let q = str_eq→eq p g e in
      subst Distinct (sym (push_entry-hit edges p m g e)) (
        Distinct-append (get_or_empty edges g) m (d g)
          (subst (λ t. ¬ In m (get_or_empty edges t)) q new))
  | inr e ↦ subst Distinct (sym (push_entry-miss edges p m g e)) (d g)
]

pub insert-IsDistinct :
    (edges : Edges) (p : String) (ms : List String)
    → Distinct ms
    → IsDistinct edges
    → IsDistinct (insert edges p ms)
insert-IsDistinct edges p ms new d g = elim (Bool-cases (p == g)) [
  | inl e ↦ subst Distinct (sym (insert-hit edges p g ms e)) new
  | inr e ↦ subst Distinct (sym (insert-miss edges p g ms e)) (d g)
]

-- What a call makes of the edges: it adds one, or takes one away, and leaves the others.
abbrev pub Adds : String → String → Edges → Edges → Type 0
Adds p m before after =
    (g x : String)
    → In x (get_or_empty after g) ↔ (In x (get_or_empty before g) ⊎ ((g ≡ p) × (x ≡ m)))

abbrev pub TakesAway : String → String → Edges → Edges → Type 0
TakesAway p m before after =
    (g x : String)
    → In x (get_or_empty after g) ↔ (In x (get_or_empty before g) × (¬ ((g ≡ p) × (x ≡ m))))

pub push_entry-Adds : (edges : Edges) (p m : String) → Adds p m edges (push_entry edges p m)
push_entry-Adds edges p m g x = (In-push_entry edges p m g x, back)
  where
    old : In x (get_or_empty edges g) → In x (get_or_empty (push_entry edges p m) g)
    old i = elim (Bool-cases (p == g)) [
      | inl e ↦
          subst (In x) (sym (push_entry-hit edges p m g e))
            (In-append_left x (get_or_empty edges g) (m ∷ []) i)
      | inr e ↦ subst (In x) (sym (push_entry-miss edges p m g e)) i
    ]

    back :
        In x (get_or_empty edges g) ⊎ ((g ≡ p) × (x ≡ m))
        → In x (get_or_empty (push_entry edges p m) g)
    back (inl i) = old i
    back (inr (q, r)) =
        let hit : (p == g) ≡ true = subst (λ t. (p == t) ≡ true) (sym q) (beq_self p) in
        subst (In x) (sym (push_entry-hit edges p m g hit))
          (In-append_right x (get_or_empty edges g) (m ∷ []) (inl r))

pub same-Adds : (edges : Edges) (p m : String) → In m (get_or_empty edges p) → Adds p m edges edges
same-Adds edges p m there g x = (λ i. inl i, back)
  where
    back : In x (get_or_empty edges g) ⊎ ((g ≡ p) × (x ≡ m)) → In x (get_or_empty edges g)
    back (inl i) = i
    back (inr (q, r)) =
        subst (λ t. In t (get_or_empty edges g)) (sym r)
          (subst (λ t. In m (get_or_empty edges t)) (sym q) there)

pub insert-TakesAway :
    (edges : Edges) (p m : String)
    → IsDistinct edges
    → TakesAway p m edges (insert edges p (remove_first (get_or_empty edges p) m))
insert-TakesAway edges p m d g x = elim (Bool-cases (p == g)) [
  | inl e ↦
      let q = str_eq→eq p g e in
      let hit = insert-hit edges p g (remove_first (get_or_empty edges p) m) e in
      (
        λ i.
            let j = subst (In x) hit i in
            (
              subst (λ t. In x (get_or_empty edges t)) q
                  (In-remove_first (get_or_empty edges p) m x j),
              λ s.
                  not-In-remove_first (get_or_empty edges p) m (d p)
                    (subst (λ t. In t (remove_first (get_or_empty edges p) m)) s.1 j),
            ),
        λ h. subst (In x) (sym hit) (
            In-remove_first_other (get_or_empty edges p) m x
              (subst (λ t. In x (get_or_empty edges t)) (sym q) h.0) (λ r. h.1 (sym q, r))),
      )
  | inr e ↦
      let miss = insert-miss edges p g (remove_first (get_or_empty edges p) m) e in
      (
        λ i.
            (subst (In x) miss i, λ s. cc (e, subst (λ t. (p == t) ≡ true) (sym s.0) (beq_self p))),
        λ h. subst (In x) (sym miss) h.0,
      )
]
