-- ===== src/Base/Actions.antt =====
-- `Result<_, CoreError>`, and methods that may change the state they are called on: what was
-- written before an error stays written.
use Prim.Native.String.{String}
use mathlib.Core.Path.{◌≡◌, refl}
use mathlib.Core.Logic.{◌⊎◌, inl, inr}
use mathlib.Core.Bool.{Bool, true, false}
use mathlib.Core.Option.{Option, none, some}

pub data CoreError : Type 0 where
  not_found auth_session_not_found permission_denied unauthenticated unsupported : CoreError
  signing_key_unavailable token_issue_failed device_invalid_code device_expired_code : CoreError
  device_authorization_not_pending device_incomplete_authorization : CoreError
  invalid_argument admin_audit_failed : String → CoreError

pub data Result {ℓ} (A : Type ℓ) : Type ℓ where
  ok : A → Result A
  err : CoreError → Result A

pub Result-cases :
    {A : Type 0} (r : Result A) → ((a : A) × (r ≡ ok a)) ⊎ ((e : CoreError) × (r ≡ err e))
Result-cases (ok a) = inl (a, refl)
Result-cases (err e) = inr (e, refl)

-- `ok_or(e)`.
abbrev pub ok_or {ℓ} : {A : Type ℓ} → Option A → CoreError → Result A
ok_or none e = err e
ok_or (some a) e = ok a

-- A method on a state `W`.
abbrev pub Act : Type 0 → Type 0 → Type 0
Act W A = W → Result A × W

module _ {W A : Type 0} where
  abbrev pub pure : A → Act W A
  pure a w = (ok a, w)

  abbrev pub raise : CoreError → Act W A
  raise e w = (err e, w)

  -- A computation that leaves the state alone, `r?`.
  abbrev pub lift : Result A → Act W A
  lift r w = (r, w)

  abbrev pub gets : (W → A) → Act W A
  gets f w = (ok (f w), w)

  -- `map_err(f)`.
  abbrev pub map_err : Act W A → (CoreError → CoreError) → Act W A
  map_err m f w = let (r, w') = m w in (elim r [ ok a ↦ ok a | err e ↦ err (f e) ], w')

abbrev pub modify : {W : Type 0} → (W → W) → Act W (Unit {0})
modify f w = (ok tt, f w)

module _ {W A B : Type 0} where
  abbrev pub continue : Result A → (A → Act W B) → Act W B
  continue (ok a) f w = f a w
  continue (err e) f w = (err e, w)

  infixl 5 ◌>>=◌ ◌>>◌
  abbrev pub ◌>>=◌ : Act W A → (A → Act W B) → Act W B
  ◌>>=◌ m f w = let (r, w') = m w in continue r f w'

  abbrev pub ◌>>◌ : Act W A → Act W B → Act W B
  m >> n = m >>= λ _. n

-- An early return of an error.
abbrev pub guard : {W : Type 0} → Bool → CoreError → Act W (Unit {0})
guard true e w = (ok tt, w)
guard false e w = (err e, w)

-- The inverse of a successful bind, where the parts stay shut.
pub >>=-eq-ok :
    {W A B : Type 0} (m : Act W A) (f : A → Act W B) (w : W) {b : B} {v : W}
    → (m >>= f) w ≡ (ok b, v)
    → (a : A) × (u : W) × (m w ≡ (ok a, u)) × (f a u ≡ (ok b, v))
>>=-eq-ok {W} {A} {B} m f w {b} {v} h = go (m w).0 (m w).1 refl h
  where
    go :
        (r : Result A) (u : W)
        → m w ≡ (r, u)
        → continue r f u ≡ (ok b, v)
        → (a : A) × (u : W) × (m w ≡ (ok a, u)) × (f a u ≡ (ok b, v))
    go (ok a) u e k = (a, u, e, k)
    go (err x) u e k = cc
