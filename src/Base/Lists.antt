-- ===== src/Base/Lists.antt =====
-- Rust's `Vec` and iterator functions over lists.
use Prim.Native.Nat.{ℕ, zero, suc, ◌+◌, ◌≤◌}
use mathlib.Core.Path.{◌≡◌, refl, sym, ap}
use mathlib.Core.Logic.{◌⊎◌, inl, inr, ◌↔◌}
use mathlib.Core.Bool.{Bool, true, false, ◌&&◌, ◌||◌}
use mathlib.Core.Option.{Option, none, some}
use mathlib.Core.List.{List, [], ◌∷◌, ◌++◌}
use native.Mathlib.Omega.{arith}
use lore_auth_bridge.Base.Tests.{Eq, ◌==◌, if◌then◌else◌, Bool-cases}

module _ {ℓ} {A : Type ℓ} where
  abbrev pub length : List A → ℕ
  length [] = 0
  length (x ∷ xs) = suc (length xs)

  pub length-append : (xs ys : List A) → length (xs ++ ys) ≡ length xs + length ys
  length-append [] ys = omega arith
  length-append (x ∷ xs) ys = omega (arith, length-append xs ys)

  -- `truncate(n)`, `take(n)`.
  unfoldable pub take : ℕ → List A → List A
  take zero xs = []
  take (suc n) [] = []
  take (suc n) (x ∷ xs) = x ∷ take n xs

  pub length-take-le : (n : ℕ) (xs : List A) → length (take n xs) ≤ n
  unfolding take
  length-take-le (suc n) (x ∷ xs) = omega (arith, length-take-le n xs)
  length-take-le _ _ = omega arith

  abbrev pub is_empty : List A → Bool
  is_empty [] = true
  is_empty (x ∷ xs) = false

  -- `any(p)`.
  unfoldable pub any : (A → Bool) → List A → Bool
  any p [] = false
  any p (x ∷ xs) = p x || any p xs

  -- `all(p)`.
  unfoldable pub all : (A → Bool) → List A → Bool
  all p [] = true
  all p (x ∷ xs) = p x && all p xs

  -- `filter(p)`, `retain(p)`.
  unfoldable pub keep : (A → Bool) → List A → List A
  keep p [] = []
  keep p (x ∷ xs) = let rest = keep p xs in if p x then x ∷ rest else rest

  -- `find(p)`.
  unfoldable pub find : (A → Bool) → List A → Option A
  find p [] = none
  find p (x ∷ xs) = let rest = find p xs in if p x then some x else rest

module _ {A : Type 0} where
  -- Membership as a type that computes.
  abbrev pub In : A → List A → Type 0
  In a [] = ⊥
  In a (x ∷ xs) = (a ≡ x) ⊎ In a xs

  abbrev pub All {κ} : (A → Type κ) → List A → Type κ
  All P [] = Unit
  All P (x ∷ xs) = P x × All P xs

  pub All-In {κ} : (P : A → Type κ) (xs : List A) (a : A) → All P xs → In a xs → P a
  All-In P [] a h i = absurd i
  All-In P (x ∷ xs) a h (inl e) = rw e h.0
  All-In P (x ∷ xs) a h (inr i) = All-In P xs a h.1 i

  pub All-of_In {κ} : (P : A → Type κ) (xs : List A) → ((a : A) → In a xs → P a) → All P xs
  All-of_In P [] h = tt
  All-of_In P (x ∷ xs) h = (h x (inl refl), All-of_In P xs (λ a i. h a (inr i)))

  pub In-append_left : (a : A) (xs ys : List A) → In a xs → In a (xs ++ ys)
  In-append_left a [] ys i = absurd i
  In-append_left a (x ∷ xs) ys (inl e) = inl e
  In-append_left a (x ∷ xs) ys (inr i) = inr (In-append_left a xs ys i)

  pub In-append_right : (a : A) (xs ys : List A) → In a ys → In a (xs ++ ys)
  In-append_right a [] ys i = i
  In-append_right a (x ∷ xs) ys i = inr (In-append_right a xs ys i)

  pub In-append : (a : A) (xs ys : List A) → In a (xs ++ ys) → In a xs ⊎ In a ys
  In-append a [] ys i = inr i
  In-append a (x ∷ xs) ys (inl e) = inl (inl e)
  In-append a (x ∷ xs) ys (inr i) = elim (In-append a xs ys i) [
    | inl j ↦ inl (inr j)
    | inr j ↦ inr j
  ]

  pub any-In : (p : A → Bool) (xs : List A) → any p xs ≡ true → (a : A) × In a xs × (p a ≡ true)
  unfolding any
  any-In p [] h = cc
  any-In p (x ∷ xs) h = elim (Bool-cases (p x)) [
    | inl e ↦ (x, inl refl, e)
    | inr e ↦ let (a, i, q) = any-In p xs (ground arith) in (a, inr i, q)
  ]

  pub any_of_In : (p : A → Bool) (xs : List A) (a : A) → In a xs → p a ≡ true → any p xs ≡ true
  unfolding any
  any_of_In p [] a i h = absurd i
  any_of_In p (x ∷ xs) a (inl e) h = ground arith
  any_of_In p (x ∷ xs) a (inr i) h = ground (arith, any_of_In p xs a i h)

  pub find-In : (p : A → Bool) (xs : List A) (a : A) → find p xs ≡ some a → In a xs × (p a ≡ true)
  unfolding find
  find-In p [] a h = cc
  find-In p (x ∷ xs) a h = elim (Bool-cases (p x)) [
    | inl e ↦ (inl (ground arith), ground arith)
    | inr e ↦ let (i, q) = find-In p xs a (ground arith) in (inr i, q)
  ]

  pub find-none : (p : A → Bool) (xs : List A) (a : A) → find p xs ≡ none → In a xs → p a ≡ false
  unfolding find
  find-none p [] a h i = absurd i
  find-none p (x ∷ xs) a h (inl e) = ground arith
  find-none p (x ∷ xs) a h (inr i) = find-none p xs a (ground arith) i

  -- `In-keep` at a head that the test accepts, and at one that it refuses.
  keep_hit :
      (p : A → Bool) (x a : A) (xs ys : List A)
      → p x ≡ true
      → In a ys ↔ (In a xs × (p a ≡ true))
      → In a (x ∷ ys) ↔ (In a (x ∷ xs) × (p a ≡ true))
  keep_hit p x a xs ys e ih = (
    elim [ inl q ↦ (inl q, rw q e) | inr i ↦ let (j, r) = ih.0 i in (inr j, r) ],
    λ h. elim h.0 [ inl q ↦ inl q | inr j ↦ inr (ih.1 (j, h.1)) ],
  )

  keep_miss :
      (p : A → Bool) (x a : A) (xs ys : List A)
      → p x ≡ false
      → In a ys ↔ (In a xs × (p a ≡ true))
      → In a ys ↔ (In a (x ∷ xs) × (p a ≡ true))
  keep_miss p x a xs ys e ih = (
    λ i. let (j, r) = ih.0 i in (inr j, r),
    λ h. elim h.0 [ inl q ↦ cc (ap p q) | inr j ↦ ih.1 (j, h.1) ],
  )

  pub In-keep : (p : A → Bool) (xs : List A) (a : A) → In a (keep p xs) ↔ (In a xs × (p a ≡ true))
  unfolding keep
  In-keep p [] a = (λ i. absurd i, λ h. absurd h.0)
  In-keep p (x ∷ xs) a = elim (Bool-cases (p x)) [
    | inl e ↦ rw e (keep_hit p x a xs (keep p xs) e (In-keep p xs a))
    | inr e ↦ rw e (keep_miss p x a xs (keep p xs) e (In-keep p xs a))
  ]

module _ {ℓ} {A : Type ℓ} ⦃e : Eq A⦄ where
  -- `contains(&a)`.
  unfoldable pub contains : List A → A → Bool
  contains [] a = false
  contains (x ∷ xs) a = x == a || contains xs a

  -- `remove(index)` at the first position of the value.
  unfoldable pub remove_first : List A → A → List A
  remove_first [] a = []
  remove_first (x ∷ xs) a = if x == a then xs else x ∷ remove_first xs a

module _ {A : Type 0} ⦃e : Eq A⦄ where
  pub contains-In : (xs : List A) (a : A) → (contains xs a ≡ true) ↔ In a xs
  unfolding contains
  contains-In [] a = (λ h. cc, λ i. absurd i)
  contains-In (x ∷ xs) a = elim (Bool-cases (x == a)) [
    | inl h ↦ (λ _. inl (sym ((e.beq_iff x a).0 h)), λ _. ground arith)
    | inr h ↦ (
      λ k. inr ((contains-In xs a).0 (ground arith)),
      elim [
        | inl q ↦ cc ((e.beq_iff x a).1 (sym q))
        | inr i ↦ ground (arith, (contains-In xs a).1 i)
      ],
    )
  ]

-- `sort_by` with a Boolean `<=`; stable.
module _ {ℓ} {A : Type ℓ} where
  unfoldable pub insert_by : (A → A → Bool) → A → List A → List A
  insert_by le a [] = a ∷ []
  insert_by le a (x ∷ xs) = if le a x then a ∷ x ∷ xs else x ∷ insert_by le a xs

  unfoldable pub sort_by : (A → A → Bool) → List A → List A
  sort_by le [] = []
  sort_by le (x ∷ xs) = insert_by le x (sort_by le xs)

module _ {A : Type 0} where
  In-insert_by :
      (le : A → A → Bool) (a b : A) (xs : List A) → In b (insert_by le a xs) ↔ ((b ≡ a) ⊎ In b xs)
  unfolding insert_by
  In-insert_by le a b [] = (λ i. i, λ i. i)
  In-insert_by le a b (x ∷ xs) = elim (Bool-cases (le a x)) [
    | inl h ↦ rw h (λ i. i, λ i. i)
    | inr h ↦ rw h (
      elim [
        | inl e ↦ inr (inl e)
        | inr i ↦ elim ((In-insert_by le a b xs).0 i) [ inl e ↦ inl e | inr j ↦ inr (inr j) ]
      ],
      elim [
        | inl e ↦ inr ((In-insert_by le a b xs).1 (inl e))
        | inr (inl e) ↦ inl e
        | inr (inr j) ↦ inr ((In-insert_by le a b xs).1 (inr j))
      ],
    )
  ]

  pub In-sort_by : (le : A → A → Bool) (b : A) (xs : List A) → In b (sort_by le xs) ↔ In b xs
  unfolding sort_by
  In-sort_by le b [] = (λ i. i, λ i. i)
  In-sort_by le b (x ∷ xs) = (
    λ i. elim ((In-insert_by le x b (sort_by le xs)).0 i) [
      | inl e ↦ inl e
      | inr j ↦ inr ((In-sort_by le b xs).0 j)
    ],
    elim [
      | inl e ↦ (In-insert_by le x b (sort_by le xs)).1 (inl e)
      | inr j ↦ (In-insert_by le x b (sort_by le xs)).1 (inr ((In-sort_by le b xs).1 j))
    ],
  )
