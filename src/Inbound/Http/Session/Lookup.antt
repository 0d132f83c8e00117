-- ===== src/Inbound/Http/Session/Lookup.antt =====
-- The session that a browser's cookie names, over the in-memory store.
use lore_auth_bridge.Base.{
  String, ◌≡◌, sym, ◌∙◌, ◌⊎◌, inl, inr, true, false, ◌==◌, string_eq, none, some, ok, get, arith,
  Option-cases, Bool-cases,
}
use lore_auth_bridge.Model.{User}
use lore_auth_bridge.Memory.State.{World}
use lore_auth_bridge.Memory.Sessions.{user_by_browser_session}
use lore_auth_bridge.Service.Wiring.{memory_sessions}
use lore_auth_bridge.Inbound.Http.Session.{
  Headers, BrowserSession, session_id_of, session_result, current_browser_session,
}

-- The cookie names a session of the store, and its user is there and active.
abbrev pub HasSession : World → Headers → BrowserSession → Type 0
HasSession w headers session =
    (user_id : String) × (session_id_of headers ≡ some session.session_id)
    × (get w.state.browser_sessions session.session_id ≡ some user_id)
    × (get w.state.users user_id ≡ some session.user)
    × ((session.user.status == "active") ≡ true)

pub session_user :
    (w : World) (headers : Headers) (s t : BrowserSession)
    → HasSession w headers s
    → HasSession w headers t
    → s.user ≡ t.user
session_user w headers s t (u, q, p, o, a) (v, r, k, n, b) = cc (q, p, o, r, k, n)

module _ (w : World) (headers : Headers) (sid : String) where
  current-missing :
      session_id_of headers ≡ none
      → current_browser_session memory_sessions headers w ≡ (ok none, w)
  unfolding current_browser_session
  current-missing e = ground (arith, e)

  current-unknown :
      session_id_of headers ≡ some sid
      → get w.state.browser_sessions sid ≡ none
      → current_browser_session memory_sessions headers w ≡ (ok none, w)
  unfolding current_browser_session user_by_browser_session session_result
  current-unknown e f = ground (arith, e, f)

  current-orphan :
      (user_id : String)
      → session_id_of headers ≡ some sid
      → get w.state.browser_sessions sid ≡ some user_id
      → get w.state.users user_id ≡ none
      → current_browser_session memory_sessions headers w ≡ (ok none, w)
  unfolding current_browser_session user_by_browser_session session_result
  current-orphan user_id e f g = ground (arith, e, f, g)

  current-inactive :
      (user_id : String) (user : User)
      → session_id_of headers ≡ some sid
      → get w.state.browser_sessions sid ≡ some user_id
      → get w.state.users user_id ≡ some user
      → (user.status == "active") ≡ false
      → current_browser_session memory_sessions headers w ≡ (ok none, w)
  unfolding current_browser_session user_by_browser_session session_result
  current-inactive user_id user e f g h = ground (arith, e, f, g, h)

  current-there :
      (user_id : String) (user : User)
      → session_id_of headers ≡ some sid
      → get w.state.browser_sessions sid ≡ some user_id
      → get w.state.users user_id ≡ some user
      → (user.status == "active") ≡ true
      → current_browser_session memory_sessions headers w
        ≡ (ok (some (record { user = user; session_id = sid })), w)
  unfolding current_browser_session user_by_browser_session session_result
  current-there user_id user e f g h = ground (arith, e, f, g, h)

abbrev Looked : World → Headers → Type 0
Looked w headers =
    ((s : BrowserSession) × HasSession w headers s
      × (current_browser_session memory_sessions headers w ≡ (ok (some s), w)))
    ⊎ (((s : BrowserSession) → ¬ HasSession w headers s)
        × (current_browser_session memory_sessions headers w ≡ (ok none, w)))

-- Either the cookie names a session and the lookup finds it, or it does not and the lookup finds
-- nothing; the store stays as it is.
pub current_browser_session-cases : (w : World) (headers : Headers) → Looked w headers
current_browser_session-cases w headers = elim (Option-cases (session_id_of headers)) [
  | inl e ↦ inr (λ s (u, q, _, _, _). cc (sym e ∙ q), current-missing w headers "" e)
  | inr (sid, e) ↦ elim (Option-cases (get w.state.browser_sessions sid)) [
    | inl f ↦ inr (λ s (u, q, p, _, _). cc (sym e ∙ q, f, p), current-unknown w headers sid e f)
    | inr (user_id, f) ↦ elim (Option-cases (get w.state.users user_id)) [
      | inl g ↦ inr (
        λ s (u, q, p, o, _). cc (sym e ∙ q, f, p, g, o),
        current-orphan w headers sid user_id e f g,
      )
      | inr (user, g) ↦ elim (Bool-cases (user.status == "active")) [
        | inl h ↦ inl (
          record { user = user; session_id = sid },
          (user_id, e, f, g, h),
          current-there w headers sid user_id user e f g h,
        )
        | inr h ↦ inr (
          λ s (u, q, p, o, a). cc (sym e ∙ q, f, p, g, o, a, h),
          current-inactive w headers sid user_id user e f g h,
        )
      ]
    ]
  ]
]
