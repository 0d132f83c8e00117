-- ===== src/Inbound/RateLimit/Window.antt =====
-- How many calls the limiter of ratelimit.rs lets through while a bucket lasts.
use lore_auth_bridge.Base.{
  ℕ, suc, ◌+◌, ◌-◌, ◌≤◌, ◌<◌, String, ◌≡◌, refl, Bool, true, false, string_eq, ◌==◌, if◌then◌else◌,
  some, List, [], ◌∷◌, leb, get, insert, get-insert, Bool-cases, arith, inl, inr, Option-cases,
  str_eq→eq, sym, ◌∙◌, subst, nat_eq,
}
use lore_auth_bridge.Inbound.RateLimit.{
  Limiter, Bucket, Buckets, is_current, prune, open_bucket, allow,
}

abbrev pub least : ℕ → ℕ → ℕ
least a b = if leb a b then a else b

-- A series of calls, each of a key at a time.
unfoldable pub passed : Limiter → String → List (String × ℕ) → Buckets → ℕ
unfolding allow
passed limiter key [] buckets = 0
passed limiter key ((caller, now) ∷ calls) buckets =
    (if caller == key then (if (allow limiter caller now buckets).0 then 1 else 0) else 0)
    + passed limiter key calls (allow limiter caller now buckets).1

-- The calls of a key.
unfoldable pub calls_of : String → List (String × ℕ) → ℕ
calls_of key [] = 0
calls_of key ((caller, now) ∷ calls) = (if caller == key then 1 else 0) + calls_of key calls

-- All calls come within the window of the bucket.
abbrev pub AreWithin : ℕ → ℕ → List (String × ℕ) → Type 0
AreWithin window start [] = Unit
AreWithin window start ((caller, now) ∷ calls) =
    (now - start < window) × AreWithin window start calls

-- A current bucket is not pruned.
get-prune :
    (m : Buckets) (key : String) (now window : ℕ) (b : Bucket)
    → get m key ≡ some b
    → is_current window now b ≡ true
    → get (prune m now window) key ≡ some b
unfolding get prune
get-prune [] key now window b h c = h
get-prune ((j, a) ∷ m) key now window b h c = elim (Bool-cases (j == key)) [
  | inl e ↦ ground (arith, e)
  | inr e ↦ let rest = get-prune m key now window b (ground (arith, e)) c in ground (arith, e, rest)
]

module _ (limiter : Limiter) (buckets : Buckets) (b : Bucket) (now : ℕ) where
  allow-own :
      (key : String)
      → (limiter.limit == 0) ≡ false
      → (limiter.window == 0) ≡ false
      → get buckets key ≡ some b
      → is_current limiter.window now b ≡ true
      → allow limiter key now buckets ≡ (
          if leb limiter.limit b.count
          then (false, buckets)
          else (true, insert buckets key (record b { count = suc b.count })))
  unfolding allow
  allow-own key l w h c = ground (arith, l, w, h, c)

  open-other :
      (key caller : String)
      → (caller == key) ≡ false
      → get buckets key ≡ some b
      → is_current limiter.window now b ≡ true
      → get (open_bucket limiter caller now buckets).1 key ≡ some b
  unfolding open_bucket
  open-other key caller n h c =
      get-prune (insert buckets caller (record { start = now; count = 1 })) key now limiter.window b
        (get-insert buckets caller key (record { start = now; count = 1 }) ∙ rw n h) c

  allow-other :
      (key caller : String)
      → (caller == key) ≡ false
      → get buckets key ≡ some b
      → is_current limiter.window now b ≡ true
      → get (allow limiter caller now buckets).1 key ≡ some b
  unfolding allow
  allow-other key caller n h c = elim (Option-cases (get buckets caller)) [
    | inl e ↦ ground (arith, e, h, open-other key caller n h c)
    | inr (a, e) ↦ ground (
      arith,
      e,
      h,
      n,
      open-other key caller n h c,
      get-insert buckets caller key (record a { count = suc a.count }),
    )
  ]

current :
    (window start count now : ℕ)
    → now - start < window
    → is_current window now (record { start = start; count = count }) ≡ true
unfolding is_current
current window start count now t = ground (arith, t)

-- `passed` and `calls_of` at a call of another key, and at one of the key that is refused or passes.
module _ (limiter : Limiter) (key caller : String) (now : ℕ) (calls : List (String × ℕ))
    (buckets after : Buckets) where
  passed-other :
      (caller == key) ≡ false
      → passed limiter key ((caller, now) ∷ calls) buckets
        ≡ passed limiter key calls (allow limiter caller now buckets).1
  unfolding passed
  passed-other e = rw e (omega arith)

  passed-own :
      (r : Bool)
      → (caller == key) ≡ true
      → allow limiter caller now buckets ≡ (r, after)
      → passed limiter key ((caller, now) ∷ calls) buckets
        ≡ (if r then 1 else 0) + passed limiter key calls after
  unfolding passed
  passed-own r e q = rw (e, q) refl

  calls_of-other :
      (caller == key) ≡ false → calls_of key ((caller, now) ∷ calls) ≡ calls_of key calls
  unfolding calls_of
  calls_of-other e = rw e (omega arith)

  calls_of-own :
      (caller == key) ≡ true → calls_of key ((caller, now) ∷ calls) ≡ suc (calls_of key calls)
  unfolding calls_of
  calls_of-own e = rw e (omega arith)

-- While a bucket lasts, the limiter lets a key's calls through until the limit is reached, and no more,
-- whatever calls of other keys come between: of the calls within the window of the bucket, those that
-- pass and those counted before are together all of them or the limit, whichever is less.
pub passed_while_open :
    (limiter : Limiter) (key : String) (calls : List (String × ℕ)) (buckets : Buckets) (b : Bucket)
    → (limiter.limit == 0) ≡ false
    → (limiter.window == 0) ≡ false
    → get buckets key ≡ some b
    → b.count ≤ limiter.limit
    → AreWithin limiter.window b.start calls
    → b.count + passed limiter key calls buckets
      ≡ least limiter.limit (b.count + calls_of key calls)
unfolding passed calls_of
passed_while_open limiter key [] buckets b l w h c i = ground (arith, c)
passed_while_open limiter key ((caller, now) ∷ calls) buckets b l w h c (t, i) =
    elim (Bool-cases (caller == key)) [
      | inr e ↦
          let rest =
            passed_while_open limiter key calls (allow limiter caller now buckets).1 b l w
              (allow-other limiter buckets b now key caller e h live) c i in
          rw (passed-other limiter key caller now calls buckets buckets e)
            (rw (calls_of-other limiter key caller now calls buckets buckets e) rest)
      | inl e ↦ elim (Bool-cases (leb limiter.limit b.count)) [
        | inl f ↦
            let rest = passed_while_open limiter key calls buckets b l w h c i in
            ground (
              arith,
              f,
              c,
              rest,
              calls_of-own limiter key caller now calls buckets buckets e,
              passed-own limiter key caller now calls buckets buckets false e (refused e f),
            )
        | inr f ↦
            let rest =
              passed_while_open limiter key calls (insert buckets caller more) more l w (counted e)
                (ground (arith, f)) i in
            ground (
              arith,
              f,
              c,
              rest,
              calls_of-own limiter key caller now calls buckets buckets e,
              passed-own limiter key caller now calls buckets (insert buckets caller more) true e
                  (taken e f),
            )
      ]
    ]
  where
    live : is_current limiter.window now b ≡ true
    live = current limiter.window b.start b.count now t

    found : (caller == key) ≡ true → get buckets caller ≡ some b
    found e = subst (λ k. get buckets k ≡ some b) (sym (str_eq→eq caller key e)) h

    more : Bucket
    more = record b { count = suc b.count }

    counted : (caller == key) ≡ true → get (insert buckets caller more) key ≡ some more
    counted e = get-insert buckets caller key more ∙ rw e refl

    refused :
        (caller == key) ≡ true
        → leb limiter.limit b.count ≡ true
        → allow limiter caller now buckets ≡ (false, buckets)
    refused e f = allow-own limiter buckets b now caller l w (found e) live ∙ rw f refl

    taken :
        (caller == key) ≡ true
        → leb limiter.limit b.count ≡ false
        → allow limiter caller now buckets ≡ (true, insert buckets caller more)
    taken e f = allow-own limiter buckets b now caller l w (found e) live ∙ rw f refl
