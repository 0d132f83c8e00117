-- ===== src/Inbound/Admin/Guard.antt =====
-- Who passes the guard of admin/guard.rs, over the in-memory store.
use lore_auth_bridge.Base.{
  String, ◌≡◌, ◌↔◌, refl, ap, ◌∙◌, ◌⊎◌, inl, inr, Bool, true, false, ◌==◌, string_eq, Option, none,
  some, List, [], ◌∷◌, ok, In, any, any-In, any_of_In, is_empty, is_empty_str, arith, Bool-cases,
  str_eq→eq, beq_self,
}
use lore_auth_bridge.Model.{normalize_email}
use lore_auth_bridge.Memory.State.{World}
use lore_auth_bridge.Service.Wiring.{memory_sessions}
use lore_auth_bridge.Inbound.Peer.{IpAddr}
use lore_auth_bridge.Inbound.Http.{
  Response, Headers, BrowserSession, current_browser_session, respond,
}
use lore_auth_bridge.Inbound.Http.Session.Lookup.{
  HasSession, session_user, current_browser_session-cases,
}
use lore_auth_bridge.Inbound.Admin.{
  AdminConfig, not_found_page, enabled, peer_passes, is_admin_email, require_admin,
  guard_middleware,
}

some_inj : {A : Type 0} (a b : A) → some a ≡ some b → a ≡ b
some_inj a b h = cc

is_empty-nil : {A : Type 0} (xs : List A) → is_empty xs ≡ true → xs ≡ []
is_empty-nil [] h = refl
is_empty-nil (x ∷ xs) h = cc

In-is_empty : {A : Type 0} (a : A) (xs : List A) → In a xs → is_empty xs ≡ false
In-is_empty a [] i = absurd i
In-is_empty a (x ∷ xs) i = refl

module _ (IpNet : Type 0) (covers : IpNet → IpAddr → Bool) (cfg : AdminConfig IpNet) where
  -- There is no list of networks, or one of its networks has the caller's address.
  abbrev pub FromAllowedPeer : Option IpAddr → Type 0
  FromAllowedPeer peer =
      (cfg.allowed_peer_cidrs ≡ [])
      ⊎ ((addr : IpAddr) × (net : IpNet) × (peer ≡ some addr)
          × In net cfg.allowed_peer_cidrs
          × (covers net addr ≡ true))

  -- The address is not empty, and it is one of those configured, up to case and outer spaces.
  abbrev pub HasAdminEmail : String → Type 0
  HasAdminEmail email =
      (admin : String) × In admin cfg.admin_emails
      × (normalize_email admin ≡ normalize_email email)
      × (is_empty_str (normalize_email email) ≡ false)

  abbrev pub IsAdmin : World → Headers → Option IpAddr → Type 0
  IsAdmin w headers peer =
      (s : BrowserSession) × HasSession w headers s
      × HasAdminEmail s.user.email
      × FromAllowedPeer peer

  covered : IpAddr → Bool
  covered addr = any (λ net. covers net addr) cfg.allowed_peer_cidrs

  peer_passes_iff :
      (peer : Option IpAddr) → (peer_passes IpNet covers cfg peer ≡ true) ↔ FromAllowedPeer peer
  unfolding peer_passes
  peer_passes_iff none = (
    λ h. inl (is_empty-nil cfg.allowed_peer_cidrs h),
    elim [ inl e ↦ rw e refl | inr (a, n, q, _, _) ↦ cc q ],
  )
  peer_passes_iff (some addr) = elim (Bool-cases (is_empty cfg.allowed_peer_cidrs)) [
    | inl e ↦ (λ _. inl (is_empty-nil cfg.allowed_peer_cidrs e), λ _. rw e refl)
    | inr e ↦ (
      λ h.
          let (net, i, q) =
            any-In (λ net. covers net addr) cfg.allowed_peer_cidrs (ground (arith, e, h)) in
          inr (addr, net, refl, i, q),
      elim [
        | inl q ↦ cc (ap is_empty q, e)
        | inr (a, net, q, i, c) ↦ ground (
          arith,
          e,
          any_of_In (λ net. covers net addr) cfg.allowed_peer_cidrs net i
              (ap (λ a. covers net a) (some_inj addr a q) ∙ c),
        )
      ],
    )
  ]

  is_admin_email_iff :
      (email : String) → (is_admin_email IpNet cfg email ≡ true) ↔ HasAdminEmail email
  unfolding is_admin_email
  is_admin_email_iff email = elim (Bool-cases (is_empty_str (normalize_email email))) [
    | inl e ↦ (λ h. cc (rw e at h), λ (a, i, q, n). cc (e, n))
    | inr e ↦ (
      λ h.
          let (admin, i, q) = any-In (same email) cfg.admin_emails (ground (arith, e, h)) in
          (admin, i, str_eq→eq (normalize_email admin) (normalize_email email) q, e),
      λ (admin, i, q, n). ground (
        arith,
        e,
        any_of_In (same email) cfg.admin_emails admin i (rw q (beq_self (normalize_email email))),
      ),
    )
  ]
    where
      same : String → String → Bool
      same email admin = normalize_email admin == normalize_email email

  email-enabled : (email : String) → HasAdminEmail email → enabled IpNet cfg ≡ true
  unfolding enabled
  email-enabled email (admin, i, _, _) = ground (arith, In-is_empty admin cfg.admin_emails i)

  module _ (w : World) (headers : Headers) (peer : Option IpAddr)
      (next : World → Response × World) where
    abbrev guarded : Response × World
    guarded = guard_middleware IpNet covers cfg memory_sessions headers peer next w

    guard-peer : peer_passes IpNet covers cfg peer ≡ false → guarded ≡ (not_found_page, w)
    unfolding guard_middleware require_admin respond
    guard-peer p = ground (arith, p)

    guard-session :
        current_browser_session memory_sessions headers w ≡ (ok none, w)
        → guarded ≡ (not_found_page, w)
    unfolding guard_middleware require_admin respond
    guard-session c = ground (arith, c)

    module _ (s : BrowserSession) where
      guard-email :
          current_browser_session memory_sessions headers w ≡ (ok (some s), w)
          → is_admin_email IpNet cfg s.user.email ≡ false
          → guarded ≡ (not_found_page, w)
      unfolding guard_middleware require_admin respond
      guard-email c m = ground (arith, c, m)

      guard-passes :
          enabled IpNet cfg ≡ true
          → peer_passes IpNet covers cfg peer ≡ true
          → current_browser_session memory_sessions headers w ≡ (ok (some s), w)
          → (s.user.status == "active") ≡ true
          → is_admin_email IpNet cfg s.user.email ≡ true
          → guarded ≡ next w
      unfolding guard_middleware require_admin respond
      guard-passes e p c a m = ground (arith, e, p, c, a, m)

  -- The administration pages are hidden: either the caller is an administrator, with a session of an
  -- active user whose email address is configured and from an allowed address, and the request goes on,
  -- or the answer is the same `not found` for all, and the store stays as it is.
  pub guard_middleware_lem :
      (w : World) (headers : Headers) (peer : Option IpAddr) (next : World → Response × World)
      → (IsAdmin w headers peer
          × (guard_middleware IpNet covers cfg memory_sessions headers peer next w ≡ next w))
        ⊎ ((¬ IsAdmin w headers peer)
            × (guard_middleware IpNet covers cfg memory_sessions headers peer next w
                ≡ (not_found_page, w)))
  guard_middleware_lem w headers peer next = elim (Bool-cases (peer_passes IpNet covers cfg peer)) [
    | inr p ↦
        inr (λ (s, _, _, f). cc (p, (peer_passes_iff peer).1 f), guard-peer w headers peer next p)
    | inl p ↦ elim (current_browser_session-cases w headers) [
      | inr (none_there, c) ↦
          inr (λ (s, h, _, _). none_there s h, guard-session w headers peer next c)
      | inl (s, h, c) ↦ elim (Bool-cases (is_admin_email IpNet cfg s.user.email)) [
        | inl m ↦
            let email = (is_admin_email_iff s.user.email).0 m in
            inl (
              (s, h, email, (peer_passes_iff peer).0 p),
              guard-passes w headers peer next s (email-enabled s.user.email email) p c h.4 m,
            )
        | inr m ↦ inr (
          λ (t, k, email, _).
              let same = is_admin_email_iff t.user.email in
              cc (
                ap (λ u. is_admin_email IpNet cfg u.email) (session_user w headers s t h k),
                same.1 email,
                m,
              ),
          guard-email w headers peer next s c m,
        )
      ]
    ]
  ]
