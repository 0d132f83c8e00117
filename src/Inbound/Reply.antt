-- ===== src/Inbound/Reply.antt =====
-- How a handler runs: methods that may change the state, and an early return of a refusal, which is
-- a gRPC status or an HTTP response.
use lore_auth_bridge.Base.{Bool, true, false, Option, none, some, Result, ok, err, CoreError, Act}

pub data Reply (E A : Type 0) : Type 0 where
  accept : A → Reply E A
  reject : E → Reply E A

abbrev pub Handler : Type 0 → Type 0 → Type 0 → Type 0
Handler W E A = W → Reply E A × W

abbrev pub reply_of : {E A : Type 0} → (CoreError → E) → Result A → Reply E A
reply_of f (ok a) = accept a
reply_of f (err e) = reject (f e)

module _ {W E A : Type 0} where
  abbrev pub answer : A → Handler W E A
  answer a w = (accept a, w)

  abbrev pub refuse : E → Handler W E A
  refuse e w = (reject e, w)

  -- `m.await.map_err(f)?`.
  abbrev pub call : Act W A → (CoreError → E) → Handler W E A
  call m f w = let (r, w') = m w in (reply_of f r, w')

  -- `match m.await { .. }`: the result as a value.
  abbrev pub observe : Act W A → Handler W E (Result A)
  observe m w = let (r, w') = m w in (accept r, w')

  -- `o.ok_or(e)?`.
  abbrev pub present : Option A → E → Handler W E A
  present none e w = (reject e, w)
  present (some a) e w = (accept a, w)

-- `if !b { return Err(e) }`.
abbrev pub require : {W E : Type 0} → Bool → E → Handler W E (Unit {0})
require true e w = (accept tt, w)
require false e w = (reject e, w)

module _ {W E A B : Type 0} where
  abbrev pub proceed : Reply E A → (A → Handler W E B) → Handler W E B
  proceed (accept a) f w = f a w
  proceed (reject e) f w = (reject e, w)

  infixl 5 ◌>>=◌ ◌>>◌
  abbrev pub ◌>>=◌ : Handler W E A → (A → Handler W E B) → Handler W E B
  ◌>>=◌ m f w = let (r, w') = m w in proceed r f w'

  abbrev pub ◌>>◌ : Handler W E A → Handler W E B → Handler W E B
  m >> n = m >>= λ _. n
