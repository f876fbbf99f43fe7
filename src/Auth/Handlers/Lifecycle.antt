-- ===== src/Auth/Handlers/Lifecycle.antt =====
-- The life of a session between `login`, `getSession` and `logout`.
use oncall_agent.Prelude.{
  ℕ, ◌∙◌, ◌+◌, Bool, true, false, none, some, ◌++◌, Text, codes, if◌then◌else◌, text_eq, lookup,
  ◌≡◌, refl, arith, lookup-insert, lookup-delete, beq_refl, ltb, Option-cases, inl, inr, ◌⊎◌,
}
use oncall_agent.Auth.State.{Auth, Net, Request, Session, Scope, console_scope}
use oncall_agent.Auth.Limits.{allow, allow-fields}
use oncall_agent.Auth.Sessions.{no_session, session, get_session, store_session}
use oncall_agent.Auth.Checks.{bearer, origin_ok}
use oncall_agent.Auth.Checks.Tokens.{HasToken, bearer-Holds}
use oncall_agent.Auth.Handlers.{opened, login, open_session, logout, is_console, remote_ip}

get_session-lookup :
    (t : ℕ) (a : Auth) (id : Text) (s : Session)
    → lookup id a.sessions ≡ some s
    → (get_session t a (some id)).1 ≡ (if ltb s.expires t then no_session else session id s)
unfolding get_session
get_session-lookup t a id s e = rw (e, get_session) (ground arith)

get_session-lookup-none :
    (t : ℕ) (a : Auth) (id : Text)
    → lookup id a.sessions ≡ none
    → (get_session t a (some id)).1 ≡ no_session
unfolding get_session
get_session-lookup-none t a id e = rw (e, get_session) refl

module _ (net : Net) (now : ℕ) (id csrf : Text) (r : Request) where
  record Checked (a : Auth) (secure : Bool) (expires : ℕ) : Type 0 where
    scope : (bearer net a r.authorization).0 ≡ console_scope
    same_origin : origin_ok net r false ≡ true
    transport : (secure ≡ false) ⊎ (r.tls ≡ true)
    stored :
        lookup id (open_session net now id csrf a r).0.sessions
        ≡ some (record { csrf = csrf; expires = expires; created = now })
    lifetime : expires ≡ now + a.ttl

  is_console-scope : (s : Scope) → is_console s ≡ true → s ≡ console_scope
  is_console-scope s h = ground arith

  lookup-store_session :
      (s : Session) (a : Auth) → lookup id (store_session now id s a).sessions ≡ some s
  unfolding store_session
  lookup-store_session s a = rw (lookup-insert, beq_refl id)

  open_session-Checked :
      (a : Auth) {i c : Text} {secure : Bool} {expires : ℕ}
      → (open_session net now id csrf a r).1 ≡ opened i secure c expires
      → (i ≡ id) × (c ≡ csrf) × Checked a secure expires
  unfolding open_session
  open_session-Checked a h = ground (
    arith,
    is_console-scope (bearer net a r.authorization).0,
    lookup-store_session (record { csrf = csrf; expires = now + a.ttl; created = now }) a,
  )

  module _ (a : Auth) where
    key : Text
    key = codes "login:" ++ remote_ip (net.split_host_port r.remote_addr) r.remote_addr

    -- What a login that succeeds has checked, and what it stored.
    pub record Opens (secure : Bool) (expires : ℕ) : Type 0 where
      pub token : HasToken net r.authorization a.has_console a.console
      pub same_origin : origin_ok net r false ≡ true
      pub transport : (secure ≡ false) ⊎ (r.tls ≡ true)
      pub stored :
          lookup id (login net now id csrf a r).0.sessions
          ≡ some (record { csrf = csrf; expires = expires; created = now })
      pub lifetime : expires ≡ now + a.ttl

    -- A login that opens a session has had the console token in its header, an origin that is the
    -- host's or absent, and TLS if the cookie is secure; the session is stored under the new id,
    -- with the CSRF token that the client was told and with the configured lifetime.
    pub login-Opens :
        {i c : Text} {secure : Bool} {expires : ℕ}
        → (login net now id csrf a r).1 ≡ opened i secure c expires
        → (i ≡ id) × (c ≡ csrf) × Opens secure expires
    unfolding login key
    login-Opens {i} {c} {secure} {expires} h =
        let (a', passed) = allow now a key 5 in
        let (sessions, console, has_console, ttl) = allow-fields now a key 5 in
        let entered : (login net now id csrf a r) ≡ open_session net now id csrf a' r =
          ground arith in
        let opens : (open_session net now id csrf a' r).1 ≡ opened i secure c expires =
          ground arith in
        let (same, csrf_told, checked) =
          open_session-Checked a' {i = i} {c = c} {secure = secure} {expires = expires} opens in
        (
          same,
          csrf_told,
          record {
            token =
                ground
                  (arith, bearer-Holds net a' r.authorization, checked.scope, console, has_console);
            same_origin = checked.same_origin;
            transport = checked.transport;
            stored = rw entered checked.stored;
            lifetime = ground (arith, checked.lifetime, ttl);
          },
        )

    -- In the tables as a login leaves them, its session is found at every reading of the clock up to its
    -- expiry, and at none after it.
    pub login-get_session :
        {i c : Text} {secure : Bool} {expires : ℕ} (t : ℕ)
        → (login net now id csrf a r).1 ≡ opened i secure c expires
        → (get_session t (login net now id csrf a r).0 (some i)).1 ≡ (
            if ltb expires t
            then no_session
            else session i (record { csrf = c; expires = expires; created = now }))
    login-get_session {i} {c} {secure} {expires} t h =
        let (same, told, opens) =
          login-Opens {i = i} {c = c} {secure = secure} {expires = expires} h in
        rw (same, told)
          (get_session-lookup t (login net now id csrf a r).0 id
            (record { csrf = csrf; expires = expires; created = now }) opens.stored)

-- After a logout the cookie finds no session, whenever it is used again.
pub logout-get_session :
    (net : Net) (now t : ℕ) (a : Auth) (r : Request)
    → (get_session t (logout net now a r).0 r.cookie).1 ≡ no_session
unfolding logout
logout-get_session net now t a r = elim (Option-cases r.cookie) [
  | inl e ↦ rw e (unfold get_session in refl)
  | inr (id, e) ↦
      let m = (get_session now a (some id)).0.sessions in
      rw e (get_session-lookup-none t _ id (lookup-delete id id m ∙ rw (beq_refl id) refl))
]
