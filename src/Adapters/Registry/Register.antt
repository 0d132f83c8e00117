-- ===== src/Adapters/Registry/Register.antt =====
-- Providers that are registered and looked up in idpregistry.rs.
use lore_auth_bridge.Base.{
  String, ◌≡◌, refl, sym, ap, ◌∙◌, Bool, true, false, ◌==◌, string_eq, if◌then◌else◌, none, some,
  [], ◌∷◌, Result, ok, err, HashMap, get, is_empty_str, str_leb, arith, Bool-cases, Option-cases,
  inl, inr, beq_self,
}
use lore_auth_bridge.Service.Ports.{IdentityProvider}
use lore_auth_bridge.Adapters.Registry.{Registry, insert_sorted, register, get_provider}

-- A key that is missing is missing in each part.
get-none :
    {V : Type 0} (i k : String) (u : V) (m : HashMap String V)
    → get ((i, u) ∷ m) k ≡ none
    → ((i == k) ≡ false) × (get m k ≡ none)
unfolding get
get-none i k u m h = elim (Bool-cases (i == k)) [ inl e ↦ cc (rw e at h) | inr e ↦ (e, rw e at h) ]

get-insert_sorted :
    {V : Type 0} (m : HashMap String V) (k j : String) (v : V)
    → get m k ≡ none
    → get (insert_sorted m k v) j ≡ (if k == j then some v else get m j)
unfolding get insert_sorted
get-insert_sorted [] k j v h = refl
get-insert_sorted ((i, u) ∷ m) k j v h =
    let (n, r) = get-none i k u m h in
    elim (Bool-cases (str_leb k i)) [
      | inl e ↦ rw e refl
      | inr e ↦ rw e (elim (Bool-cases (i == j)) [
        | inl f ↦
            ground
              (arith, f, n, string_eq.beq_iff i j, string_eq.beq_iff k j, string_eq.beq_iff i k)
        | inr f ↦ rw f (get-insert_sorted m k j v r)
      ])
    ]

-- `register` where it fails, and where it succeeds.
module _ {W : Type 0} (debug_str : String → String) (registry : Registry W)
    (provider : IdentityProvider W) where
  abbrev succeeds : Result (Unit {0}) → Bool
  succeeds (ok _) = true
  succeeds (err _) = false

  register_blank :
      is_empty_str provider.descriptor.id ≡ true
      → succeeds (register debug_str registry provider).0 ≡ false
  unfolding register
  register_blank e = ground (arith, e)

  register_duplicate :
      (taken : IdentityProvider W)
      → get registry.by_id provider.descriptor.id ≡ some taken
      → succeeds (register debug_str registry provider).0 ≡ false
  unfolding register
  register_duplicate taken f = ground (arith, f)

  register_new :
      is_empty_str provider.descriptor.id ≡ false
      → get registry.by_id provider.descriptor.id ≡ none
      → (register debug_str registry provider).1.by_id
        ≡ insert_sorted registry.by_id provider.descriptor.id provider
  unfolding register
  register_new e f = rw (register, e, f) refl

register_ok :
    {W : Type 0} (debug_str : String → String) (registry after : Registry W)
    (provider : IdentityProvider W)
    → register debug_str registry provider ≡ (ok tt, after)
    → (get registry.by_id provider.descriptor.id ≡ none)
      × (after.by_id ≡ insert_sorted registry.by_id provider.descriptor.id provider)
register_ok {W} debug_str registry after provider h =
    elim (Bool-cases (is_empty_str provider.descriptor.id)) [
      | inl e ↦ absurd (never (register_blank debug_str registry provider e))
      | inr e ↦ elim (Option-cases (get registry.by_id provider.descriptor.id)) [
        | inr (p, f) ↦ absurd (never (register_duplicate debug_str registry provider p f))
        | inl f ↦ (
          f,
          ap (λ (t : Result (Unit {0}) × Registry W). t.1.by_id) (sym h)
              ∙ register_new debug_str registry provider e f,
        )
      ]
    ]
  where
    never :
        succeeds debug_str registry provider (register debug_str registry provider).0 ≡ false → ⊥
    never q =
        cc (
          ap (λ (t : Result (Unit {0}) × Registry W). succeeds debug_str registry provider t.0) h,
          q,
        )

-- `register` of an id that is taken.
register_taken :
    {W : Type 0} (debug_str : String → String) (registry : Registry W)
    (provider taken : IdentityProvider W)
    → get registry.by_id provider.descriptor.id ≡ some taken
    → (register debug_str registry provider).1 ≡ registry
unfolding register
register_taken debug_str registry provider taken h = ground (arith, h)

-- A provider that was registered is found under its id, the others stay as they were, and no other
-- provider can take its id.
pub get_provider-register :
    {W : Type 0} (debug_str : String → String) (registry after : Registry W)
    (provider other : IdentityProvider W) (id : String)
    → register debug_str registry provider ≡ (ok tt, after)
    → other.descriptor.id ≡ provider.descriptor.id
    → (get_provider after id
        ≡ (if provider.descriptor.id == id then some provider else get_provider registry id))
      × ((register debug_str after other).1 ≡ after)
unfolding get_provider
get_provider-register debug_str registry after provider other id h e =
    let (free, q) = register_ok debug_str registry after provider h in
    let found : (j : String)
        → get after.by_id j
          ≡ (if provider.descriptor.id == j then some provider else get registry.by_id j) =
      λ j.
        ap (λ m. get m j) q
        ∙ get-insert_sorted registry.by_id provider.descriptor.id j provider free in
    (
      found id,
      register_taken debug_str after other provider
          (rw e (found provider.descriptor.id ∙ rw (beq_self provider.descriptor.id) refl)),
    )
