-- ===== src/Memory/Sessions/OneTime.antt =====
-- CSRF tokens and login states are good for one use.

use lore_auth_bridge.Base.{
  ℕ, suc, String, ◌≡◌, inl, inr, refl, sym, ap, subst, ◌∙◌, Bool, true, false, ◌==◌, string_eq,
  if◌then◌else◌, Option, none, some, List, [], ◌∷◌, Result, ok, err, not_found, get, insert, remove,
  get-insert, get-remove, i64_leb, saturate_i64, arith, Option-cases, Bool-cases, not, ◌||◌,
  beq_self,
}
use lore_auth_bridge.Model.{LoginState}
use lore_auth_bridge.Memory.State.{World, CsrfToken, hash_secret}
use lore_auth_bridge.Memory.Sessions.{consume_csrf_token, consume_login_state}

abbrev pub time : World → ℕ
time w = saturate_i64 (w.env.clock w.ticks)

-- The record of a CSRF token, and of a login state.
abbrev pub csrf : World → String → Option CsrfToken
csrf w token = get w.state.csrf_tokens (hash_secret w.env token)

abbrev pub login_state : World → String → Option LoginState
login_state w value = get w.state.login_states (hash_secret w.env value)

-- Whether a token may be consumed by a session now.
abbrev pub is_refused : String → CsrfToken → ℕ → Bool
is_refused session_id c now =
    not (c.session_id == session_id) || c.consumed || i64_leb c.expires_at now

abbrev mark : World → String → CsrfToken → World
mark w token c = record w {
  ticks = suc w.ticks;
  state = record (w.state) {
    csrf_tokens =
        insert w.state.csrf_tokens (hash_secret w.env token) (record c { consumed = true });
  };
}

-- `consume_csrf_token` on every branch: an unknown token, one that the session may not use, one that
-- was used or has expired, and one that is then marked as used.
pub consume_csrf_token_lem :
    (session_id token : String) (w : World)
    → consume_csrf_token session_id token w
      ≡ elim (csrf w token) as (λ _. Result (Unit {0}) × World) [
        | none ↦ (err not_found, w)
        | some c ↦
            if is_refused session_id c (time w)
            then (err not_found, record w { ticks = suc w.ticks })
            else (ok tt, mark w token c)
      ]
unfolding consume_csrf_token
consume_csrf_token_lem session_id token w = elim (Option-cases (csrf w token)) [
  | inl e ↦ ground (arith, e)
  | inr (c, e) ↦ ground (arith, e)
]

abbrev pub IsSpent : String → World → Type 0
IsSpent token w = (c : CsrfToken) × (csrf w token ≡ some c) × (c.consumed ≡ true)

mark-csrf :
    (w : World) (token other : String) (c : CsrfToken)
    → csrf (mark w token c) other ≡ (
        if hash_secret w.env token == hash_secret w.env other
        then some (record c { consumed = true })
        else csrf w other)
mark-csrf w token other c =
    get-insert w.state.csrf_tokens (hash_secret w.env token) (hash_secret w.env other)
      (record c { consumed = true })

mark-IsSpent :
    (w : World) (token other : String) (c : CsrfToken)
    → IsSpent other w
    → IsSpent other (mark w token c)
mark-IsSpent w token other c (d, q, h) =
    elim (Bool-cases (hash_secret w.env token == hash_secret w.env other)) [
      | inl e ↦ (record c { consumed = true }, mark-csrf w token other c ∙ rw e refl, refl)
      | inr e ↦ (d, mark-csrf w token other c ∙ rw e q, h)
    ]

consume-IsSpent :
    (session_id token other : String) (w : World)
    → IsSpent other w
    → IsSpent other (consume_csrf_token session_id token w).1
consume-IsSpent session_id token other w s = rw consume_csrf_token_lem (by_token (csrf w token))
  where
    by_token :
        (o : Option CsrfToken)
        → IsSpent other
            (elim o as (λ _. Result (Unit {0}) × World) [
              | none ↦ (err not_found, w)
              | some c ↦
                  if is_refused session_id c (time w)
                  then (err not_found, record w { ticks = suc w.ticks })
                  else (ok tt, mark w token c)
            ]).1
    by_token none = s
    by_token (some c) = elim (Bool-cases (is_refused session_id c (time w))) [
      | inl e ↦ rw e s
      | inr e ↦ rw e (mark-IsSpent w token other c s)
    ]

-- A series of attempts, each of a session with a token.
unfoldable pub attempts : World → List (String × String) → World
attempts w [] = w
attempts w ((session_id, token) ∷ rest) = attempts (consume_csrf_token session_id token w).1 rest

pub attempts-IsSpent :
    (w : World) (tries : List (String × String)) (token : String)
    → IsSpent token w
    → IsSpent token (attempts w tries)
unfolding attempts
attempts-IsSpent w [] token s = s
attempts-IsSpent w ((i, t) ∷ rest) token s =
    attempts-IsSpent (consume_csrf_token i t w).1 rest token (consume-IsSpent i t token w s)

pub consume_csrf_token-IsSpent :
    (session_id token : String) (w v : World)
    → consume_csrf_token session_id token w ≡ (ok tt, v)
    → IsSpent token v
consume_csrf_token-IsSpent session_id token w v h = elim (Option-cases (csrf w token)) [
  | inl e ↦ cc (missing e)
  | inr (c, e) ↦ elim (Bool-cases (is_refused session_id c (time w))) [
    | inl r ↦ cc (refused c e r)
    | inr r ↦ spent c (sym (marked c e r) ∙ h)
  ]
]
  where
    missing :
        csrf w token ≡ none → ◌≡◌ {A = Result (Unit {0}) × World} (err not_found, w) (ok tt, v)
    missing e = sym (consume_csrf_token_lem session_id token w ∙ rw e refl) ∙ h

    refused :
        (c : CsrfToken)
        → csrf w token ≡ some c
        → is_refused session_id c (time w) ≡ true
        → ◌≡◌ {A = Result (Unit {0}) × World}
            (err not_found, record w { ticks = suc w.ticks })
            (ok tt, v)
    refused c e r = sym (consume_csrf_token_lem session_id token w ∙ rw (e, r) refl) ∙ h

    marked :
        (c : CsrfToken)
        → csrf w token ≡ some c
        → is_refused session_id c (time w) ≡ false
        → consume_csrf_token session_id token w ≡ (ok tt, mark w token c)
    marked c e r = consume_csrf_token_lem session_id token w ∙ rw (e, r) refl

    spent :
        (c : CsrfToken)
        → ◌≡◌ {A = Result (Unit {0}) × World} (ok tt, mark w token c) (ok tt, v)
        → IsSpent token v
    spent c q = subst (IsSpent token) (ap (λ (t : Result (Unit {0}) × World). t.1) q) (
      record c { consumed = true },
      mark-csrf w token token c ∙ rw (beq_self (hash_secret w.env token)) refl,
      refl,
    )

-- A token that was used is refused to every session.
pub IsSpent-refused :
    (other token : String) (u : World)
    → IsSpent token u
    → (consume_csrf_token other token u).0 ≡ err not_found
IsSpent-refused other token u (c, e, s) =
    rw (consume_csrf_token_lem other token u) (rw e (refused c s))
  where
    refused :
        (c : CsrfToken)
        → c.consumed ≡ true
        → (if◌then◌else◌ {A = Result (Unit {0}) × World}
            (is_refused other c (time u))
            (err not_found, record u { ticks = suc u.ticks })
            (ok tt, mark u token c)).0
          ≡ err not_found
    refused c s = ground (arith, s)

-- A CSRF token works once: after a consumption that succeeds, and whatever attempts follow, it is
-- refused to every session.
pub csrf_token_once :
    (session_id token : String) (w v : World) (tries : List (String × String)) (other : String)
    → consume_csrf_token session_id token w ≡ (ok tt, v)
    → (consume_csrf_token other token (attempts v tries)).0 ≡ err not_found
csrf_token_once session_id token w v tries other h =
    IsSpent-refused other token (attempts v tries)
      (attempts-IsSpent v tries token (consume_csrf_token-IsSpent session_id token w v h))

abbrev pub forget : World → String → World
forget w value = record w {
  state = record (w.state) { login_states = remove w.state.login_states (hash_secret w.env value) };
}

-- `consume_login_state` on every branch: an unknown state, one that came too late, one in time. It is
-- taken out in each.
pub consume_login_state_lem :
    (value : String) (w : World)
    → consume_login_state value w ≡ elim (login_state w value) as (λ _. Result LoginState × World) [
      | none ↦ (err not_found, forget w value)
      | some l ↦
          if i64_leb l.expires_at (time w)
          then (err not_found, record (forget w value) { ticks = suc w.ticks })
          else (ok l, record (forget w value) { ticks = suc w.ticks })
    ]
unfolding consume_login_state
consume_login_state_lem value w = elim (Option-cases (login_state w value)) [
  | inl e ↦ ground (arith, e)
  | inr (l, e) ↦ ground (arith, e)
]

after-login_state :
    (value : String) (w : World) → login_state (consume_login_state value w).1 value ≡ none
after-login_state value w = rw consume_login_state_lem (by_state (login_state w value))
  where
    gone :
        get (remove w.state.login_states (hash_secret w.env value)) (hash_secret w.env value) ≡ none
    gone =
        get-remove w.state.login_states (hash_secret w.env value) (hash_secret w.env value)
        ∙ rw (beq_self (hash_secret w.env value)) refl

    by_state :
        (o : Option LoginState)
        → login_state
            (elim o as (λ _. Result LoginState × World) [
              | none ↦ (err not_found, forget w value)
              | some l ↦
                  if i64_leb l.expires_at (time w)
                  then (err not_found, record (forget w value) { ticks = suc w.ticks })
                  else (ok l, record (forget w value) { ticks = suc w.ticks })
            ]).1
            value
          ≡ none
    by_state none = gone
    by_state (some l) = elim (Bool-cases (i64_leb l.expires_at (time w))) [
      | inl e ↦ rw e gone
      | inr e ↦ rw e gone
    ]

-- The store when a login state was consumed in time.
abbrev pub taken : World → String → World
taken w value = record (forget w value) { ticks = suc w.ticks }

pub taken-login_state : (w : World) (value : String) → login_state (taken w value) value ≡ none
taken-login_state w value =
    get-remove w.state.login_states (hash_secret w.env value) (hash_secret w.env value)
    ∙ rw (beq_self (hash_secret w.env value)) refl

-- A state that is consumed was held and had not expired, and the other way round.
pub consume_login_state_ok :
    (value : String) (w v : World) (l : LoginState)
    → consume_login_state value w ≡ (ok l, v)
    → (login_state w value ≡ some l) × (i64_leb l.expires_at (time w) ≡ false) × (v ≡ taken w value)
consume_login_state_ok value w v l h = by_state (login_state w value) refl
  where
    by_state :
        (o : Option LoginState)
        → login_state w value ≡ o
        → (login_state w value ≡ some l)
          × (i64_leb l.expires_at (time w) ≡ false)
          × (v ≡ taken w value)
    by_state none e = cc (rw e at (consume_login_state_lem value w), h)
    by_state (some k) e = elim (Bool-cases (i64_leb k.expires_at (time w))) [
      | inl late ↦ cc (rw (e, late) at (consume_login_state_lem value w), h)
      | inr live ↦
          let q = sym (rw (e, live) at (consume_login_state_lem value w)) ∙ h in
          let same : k ≡ l = cc q in
          (
            e ∙ ap some same,
            subst (λ (t : LoginState). i64_leb t.expires_at (time w) ≡ false) same live,
            ap (λ (t : Result LoginState × World). t.1) (sym q),
          )
    ]

pub live-consume_login_state :
    (value : String) (w : World) (l : LoginState)
    → login_state w value ≡ some l
    → i64_leb l.expires_at (time w) ≡ false
    → consume_login_state value w ≡ (ok l, taken w value)
live-consume_login_state value w l e live = consume_login_state_lem value w ∙ rw (e, live) refl

-- A login state is gone after the first attempt to consume it, be it in time or too late: the second
-- attempt answers `NotFound`.
pub login_state_once :
    (value : String) (w : World)
    → (consume_login_state value (consume_login_state value w).1).0 ≡ err not_found
login_state_once value w =
    let v = (consume_login_state value w).1 in
    rw (consume_login_state_lem value v) (rw (after-login_state value w) refl)
