-- ===== src/Memory/Nesting/Widen.antt =====
-- The loop of crates/lore-auth-adapters/src/memory/mod.rs that collects the groups above a user's.
use text.Mathlib.TextEquality.{eq_iff}
use lore_auth_bridge.Base.{
  ℕ, zero, suc, ◌+◌, ◌≤◌, ◌<◌, String, ◌≡◌, refl, sym, ap, subst, ◌∙◌, Bool, true, false, ◌||◌,
  ◌&&◌, not, string_eq, if◌then◌else◌, none, some, List, [], ◌∷◌, get, get_or_empty, contains, any,
  length, In, arith, Bool-cases, contains-In, inl, inr, any-In, any_of_In,
}
use lore_auth_bridge.Memory.Nesting.{Edges, joins, widen, widen_loop}

or_true : (b : Bool) → (b || true) ≡ true
or_true b = ground arith

or_false : (b : Bool) → (b || false) ≡ b
or_false b = ground arith

widen-nil : (groups : List String) → (widen [] groups false).1 ≡ false
unfolding widen
widen-nil groups = refl

-- `widen` at an entry whose parent joins, and at one whose parent does not.
module _ (p : String) (ms : List String) (rest : Edges) (groups : List String)
    (changed : Bool) where
  widen-join :
      joins groups p ms ≡ true
      → widen ((p, ms) ∷ rest) groups changed ≡ widen rest (p ∷ groups) true
  unfolding widen
  widen-join e = ground (arith, e, or_true changed)

  widen-skip :
      joins groups p ms ≡ false → widen ((p, ms) ∷ rest) groups changed ≡ widen rest groups changed
  unfolding widen
  widen-skip e = ground (arith, e, or_false changed)

-- A round only adds groups.
In-widen :
    (edges : Edges) (groups : List String) (changed : Bool) (g : String)
    → In g groups
    → In g (widen edges groups changed).0
unfolding widen
In-widen [] groups changed g i = i
In-widen ((p, ms) ∷ rest) groups changed g i = elim (Bool-cases (joins groups p ms)) [
  | inl e ↦ rw (e, widen) (In-widen rest (p ∷ groups) (changed || true) g (inr i))
  | inr e ↦ rw (e, widen) (In-widen rest groups (changed || false) g i)
]

-- `changed` is never taken back.
widen-changed : (edges : Edges) (groups : List String) → (widen edges groups true).1 ≡ true
unfolding widen
widen-changed [] groups = refl
widen-changed ((p, ms) ∷ rest) groups =
    widen-changed rest (if joins groups p ms then p ∷ groups else groups)

-- Entries whose parent is not among the groups.
pub outside : Edges → List String → ℕ
outside [] groups = 0
outside ((p, ms) ∷ rest) groups = (if contains groups p then 0 else 1) + outside rest groups

pub outside-le : (edges : Edges) (groups : List String) → outside edges groups ≤ length edges
unfolding outside
outside-le [] groups = omega arith
outside-le ((p, ms) ∷ rest) groups = ground (arith, outside-le rest groups)

outside-cons-le :
    (edges : Edges) (g : String) (groups : List String)
    → outside edges (g ∷ groups) ≤ outside edges groups
unfolding outside contains
outside-cons-le [] g groups = omega arith
outside-cons-le ((p, ms) ∷ rest) g groups = ground (arith, outside-cons-le rest g groups)

-- A parent of the map that joins lowers the count.
outside-cons-lt :
    (edges : Edges) (g : String) (ms : List String) (groups : List String)
    → In (g, ms) edges
    → contains groups g ≡ false
    → outside edges (g ∷ groups) < outside edges groups
unfolding outside contains
outside-cons-lt [] g ms groups i h = absurd i
outside-cons-lt ((p, ns) ∷ rest) g ms groups (inl q) h =
    ground
      (arith, ap (λ (t : String × List String). t.0) q, eq_iff g p, outside-cons-le rest g groups)
outside-cons-lt ((p, ns) ∷ rest) g ms groups (inr i) h =
    ground (arith, outside-cons-lt rest g ms groups i h)

joins-parent :
    (groups : List String) (p : String) (ms : List String)
    → joins groups p ms ≡ true
    → contains groups p ≡ false
unfolding joins
joins-parent groups p ms h = ground arith

outside-widen-le :
    (all edges : Edges) (groups : List String) (changed : Bool)
    → outside all (widen edges groups changed).0 ≤ outside all groups
unfolding widen
outside-widen-le all [] groups changed = omega arith
outside-widen-le all ((p, ms) ∷ rest) groups changed = elim (Bool-cases (joins groups p ms)) [
  | inl e ↦
      rw (e, widen)
        (omega (
          arith,
          outside-widen-le all rest (p ∷ groups) (changed || true),
          outside-cons-le all p groups,
        ))
  | inr e ↦ rw (e, widen) (outside-widen-le all rest groups (changed || false))
]

-- A run over some of the entries that changes the groups lowers the count over all of them.
outside-widen-lt :
    (all edges : Edges) (groups : List String)
    → ((e : String × List String) → In e edges → In e all)
    → (widen edges groups false).1 ≡ true
    → outside all (widen edges groups false).0 < outside all groups
outside-widen-lt all [] groups sub h = cc (widen-nil groups, h)
outside-widen-lt all ((p, ms) ∷ rest) groups sub h = elim (Bool-cases (joins groups p ms)) [
  | inl e ↦ rw (widen-join p ms rest groups false e) (
      omega (
        arith,
        outside-widen-le all rest (p ∷ groups) true,
        outside-cons-lt all p ms groups (sub (p, ms) (inl refl)) (joins-parent groups p ms e),
      ))
  | inr e ↦ rw (widen-skip p ms rest groups false e) (
      outside-widen-lt all rest groups (λ x i. sub x (inr i))
        (rw (widen-skip p ms rest groups false e) at h))
]

-- Where no parent joins, it is there or has no member there.
not-joins :
    (groups : List String) (p m : String) (ms : List String)
    → joins groups p ms ≡ false
    → In m ms
    → In m groups
    → In p groups
unfolding joins
not-joins groups p m ms h i j = elim (Bool-cases (contains groups p)) [
  | inl e ↦ (contains-In groups p).0 e
  | inr e ↦ cc (
    any_of_In (λ (x : String). contains groups x) ms m i ((contains-In groups m).1 j),
    h_left (any (λ x. contains groups x) ms) (contains groups p) h e,
  )
]
  where
    h_left : (a b : Bool) → (a && not b) ≡ false → b ≡ false → a ≡ false
    h_left a b p q = ground arith

pub joins-any :
    (groups : List String) (p : String) (ms : List String)
    → joins groups p ms ≡ true
    → (m : String) × In m ms × In m groups
unfolding joins
joins-any groups p ms h =
    let (m, i, q) = any-In (λ x. contains groups x) ms (ground arith) in
    (m, i, (contains-In groups m).0 q)

pub get_or_empty-eq :
    (edges : Edges) (p : String) (ms : List String)
    → get edges p ≡ some ms
    → get_or_empty edges p ≡ ms
unfolding get_or_empty
get_or_empty-eq edges p ms h = rw (h, get_or_empty)

-- Each member of a set of groups brings its parents in.
abbrev pub IsUpward : Edges → List String → Type 0
IsUpward edges groups =
    (p : String) (ms : List String)
    → In (p, ms) edges
    → (m : String) → In m ms
    → In m groups
    → In p groups

-- A run that changes nothing leaves the groups as they were, closed upward.
pub widen_stable :
    (edges : Edges) (groups : List String)
    → (widen edges groups false).1 ≡ false
    → ((widen edges groups false).0 ≡ groups) × IsUpward edges groups
widen_stable [] groups h = (unfold widen in refl, λ p ms i. absurd i)
widen_stable ((p, ms) ∷ rest) groups h = elim (Bool-cases (joins groups p ms)) [
  | inl e ↦ cc (
    widen-changed rest (p ∷ groups),
    h,
    ap (λ (t : List String × Bool). t.1) (widen-join p ms rest groups false e),
  )
  | inr e ↦
      let (same, up) = widen_stable rest groups (rw (widen-skip p ms rest groups false e) at h) in
      (rw (widen-skip p ms rest groups false e) same, upward e up)
]
  where
    upward : joins groups p ms ≡ false → IsUpward rest groups → IsUpward ((p, ms) ∷ rest) groups
    upward e up q ns (inr i) m j k = up q ns i m j k
    upward e up q ns (inl eq) m j k =
        subst (λ t. In t groups) (sym (ap (λ (t : String × List String). t.0) eq))
          (not-joins groups p m ms e (subst (In m) (ap (λ (t : String × List String). t.1) eq) j) k)

pub widen_loop-zero : (edges : Edges) (groups : List String) → widen_loop zero edges groups ≡ none
unfolding widen_loop
widen_loop-zero edges groups = refl

module _ (fuel : ℕ) (edges : Edges) (groups : List String) where
  pub widen_loop-again :
      (widen edges groups false).1 ≡ true
      → widen_loop (suc fuel) edges groups ≡ widen_loop fuel edges (widen edges groups false).0
  unfolding widen_loop
  widen_loop-again e = rw e

  pub widen_loop-done :
      (widen edges groups false).1 ≡ false
      → (widen edges groups false).0 ≡ groups
      → widen_loop (suc fuel) edges groups ≡ some groups
  unfolding widen_loop
  widen_loop-done e same = rw (e, same)

-- The loop ends, with groups closed upward that hold those it began with.
pub widen_loop-total :
    (fuel : ℕ) (edges : Edges) (groups : List String)
    → outside edges groups < fuel
    → (r : List String) × (widen_loop fuel edges groups ≡ some r)
      × IsUpward edges r
      × ((g : String) → In g groups → In g r)
widen_loop-total zero edges groups h = absurd (omega arith)
widen_loop-total (suc fuel) edges groups h = elim (Bool-cases (widen edges groups false).1) [
  | inl e ↦
      let (r, eq, up, grow) =
        widen_loop-total fuel edges (widen edges groups false).0
          (omega (arith, outside-widen-lt edges edges groups (λ x i. i) e)) in
      (
        r,
        widen_loop-again fuel edges groups e ∙ eq,
        up,
        λ g i. grow g (In-widen edges groups false g i),
      )
  | inr e ↦
      let (same, up) = widen_stable edges groups e in
      (groups, widen_loop-done fuel edges groups e same, up, λ g i. i)
]

-- What holds of the groups that the loop begins with, and goes from a member to its parents, holds of
-- those it ends with.
module _ (P : String → Type 0) (edges : Edges)
    (step : (p : String) (ms : List String)
      → In (p, ms) edges
      → (m : String) → In m ms
      → P m
      → P p) where
  widen-closed :
      (part : Edges) (groups : List String) (changed : Bool)
      → ((e : String × List String) → In e part → In e edges)
      → ((g : String) → In g groups → P g)
      → (g : String) → In g (widen part groups changed).0
      → P g
  unfolding widen
  widen-closed [] groups changed sub a = a
  widen-closed ((p, ms) ∷ rest) groups changed sub a = elim (Bool-cases (joins groups p ms)) [
    | inl e ↦
        let (m, i, j) = joins-any groups p ms e in
        rw (e, widen)
          (widen-closed rest (p ∷ groups) (changed || true) (λ x k. sub x (inr k))
            (λ g. elim [
              | inl q ↦ subst P (sym q) (step p ms (sub (p, ms) (inl refl)) m i (a m j))
              | inr k ↦ a g k
            ]))
    | inr e ↦ rw (e, widen) (widen-closed rest groups (changed || false) (λ x k. sub x (inr k)) a)
  ]

  pub widen_loop-closed :
      (fuel : ℕ) (groups : List String) {r : List String}
      → ((g : String) → In g groups → P g)
      → widen_loop fuel edges groups ≡ some r
      → (g : String) → In g r
      → P g
  widen_loop-closed zero groups a h = cc (widen_loop-zero edges groups, h)
  widen_loop-closed (suc fuel) groups a h = elim (Bool-cases (widen edges groups false).1) [
    | inl e ↦
        widen_loop-closed fuel (widen edges groups false).0
          (widen-closed edges groups false (λ x i. i) a)
          (sym (widen_loop-again fuel edges groups e) ∙ h)
    | inr e ↦
        let (same, up) = widen_stable edges groups e in
        subst (λ ids. (g : String) → In g ids → P g)
          (some-inj (sym (widen_loop-done fuel edges groups e same) ∙ h)) a
  ]
    where
      some-inj : {x y : List String} → some x ≡ some y → x ≡ y
      some-inj q = cc q
