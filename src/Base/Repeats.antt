-- ===== src/Base/Repeats.antt =====
-- Lists of texts in which no value stands twice.
use Prim.Native.String.{String}
use mathlib.Core.Path.{◌≡◌, sym, subst, ◌∙◌}
use mathlib.Core.Logic.{inl, inr, ◌≢◌}
use mathlib.Core.Bool.{true, false}
use mathlib.Core.List.{List, [], ◌∷◌, ◌++◌}
use native.Mathlib.Omega.{arith}
use lore_auth_bridge.Base.Tests.{◌==◌, string_eq, Bool-cases, beq_self, str_eq→eq}
use lore_auth_bridge.Base.Lists.{In, In-append, remove_first}

-- No value stands twice.
abbrev pub Distinct : List String → Type 0
Distinct [] = Unit
Distinct (x ∷ xs) = (¬ In x xs) × Distinct xs

pub Distinct-append :
    (xs : List String) (a : String) → Distinct xs → ¬ In a xs → Distinct (xs ++ a ∷ [])
Distinct-append [] a d new = (λ i. i, tt)
Distinct-append (x ∷ xs) a (apart, d) new = (fresh, Distinct-append xs a d (λ i. new (inr i)))
  where
    fresh : ¬ In x (xs ++ a ∷ [])
    fresh i = elim (In-append x xs (a ∷ []) i) [
      | inl j ↦ apart j
      | inr (inl e) ↦ new (inl (sym e))
      | inr (inr z) ↦ z
    ]

module _ (y a : String) (xs : List String) where
  remove_first-hit : (y == a) ≡ true → remove_first (y ∷ xs) a ≡ xs
  unfolding remove_first
  remove_first-hit e = ground (arith, e)

  remove_first-miss : (y == a) ≡ false → remove_first (y ∷ xs) a ≡ y ∷ remove_first xs a
  unfolding remove_first
  remove_first-miss e = ground (arith, e)

pub In-remove_first : (xs : List String) (a x : String) → In x (remove_first xs a) → In x xs
unfolding remove_first
In-remove_first [] a x i = i
In-remove_first (y ∷ xs) a x i = elim (Bool-cases (y == a)) [
  | inl e ↦ inr (subst (In x) (hit e) i)
  | inr e ↦ elim (subst (In x) (miss e) i) [
    | inl q ↦ inl q
    | inr j ↦ inr (In-remove_first xs a x j)
  ]
]
  where
    hit : (y == a) ≡ true → remove_first (y ∷ xs) a ≡ xs
    hit e = ground (arith, e)

    miss : (y == a) ≡ false → remove_first (y ∷ xs) a ≡ y ∷ remove_first xs a
    miss e = ground (arith, e)

pub Distinct-remove_first :
    (xs : List String) (a : String) → Distinct xs → Distinct (remove_first xs a)
unfolding remove_first
Distinct-remove_first [] a d = tt
Distinct-remove_first (y ∷ xs) a (apart, d) = elim (Bool-cases (y == a)) [
  | inl e ↦ rw (remove_first-hit y a xs e) d
  | inr e ↦
      rw (remove_first-miss y a xs e)
        (λ i. apart (In-remove_first xs a y i), Distinct-remove_first xs a d)
]

-- Where no value stands twice, the removed value is gone.
pub not-In-remove_first : (xs : List String) (a : String) → Distinct xs → ¬ In a (remove_first xs a)
unfolding remove_first
not-In-remove_first [] a d i = i
not-In-remove_first (y ∷ xs) a (apart, d) i = elim (Bool-cases (y == a)) [
  | inl e ↦
      apart
        (subst (λ t. In t xs) (sym (str_eq→eq y a e)) (subst (In a) (remove_first-hit y a xs e) i))
  | inr e ↦ elim (subst (In a) (remove_first-miss y a xs e) i) [
    | inl q ↦
        let same : (y == a) ≡ true = subst (λ t. (t == a) ≡ true) q (beq_self a) in cc (e, same)
    | inr j ↦ not-In-remove_first xs a d j
  ]
]

pub In-remove_first_other :
    (xs : List String) (a x : String) → In x xs → x ≢ a → In x (remove_first xs a)
unfolding remove_first
In-remove_first_other [] a x i n = i
In-remove_first_other (y ∷ xs) a x i n = elim (Bool-cases (y == a)) [
  | inl e ↦
      rw (remove_first-hit y a xs e)
        (elim i [ inl q ↦ absurd (n (q ∙ str_eq→eq y a e)) | inr j ↦ j ])
  | inr e ↦
      rw (remove_first-miss y a xs e)
        (elim i [ inl q ↦ inl q | inr j ↦ inr (In-remove_first_other xs a x j n) ])
]
