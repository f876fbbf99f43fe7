-- ===== src/Auth/Gate/Sound.antt =====
-- Who gets through the middleware.
use oncall_agent.Prelude.{
  ℕ, ◌≤◌, true, false, Option, none, some, [], ◌++◌, Text, codes, ◌==◌, text_eq, text_beq_iff, ◌≡◌,
  ◌⊎◌, refl, arith, lookup, inl, inr, Bool-cases, ap,
}
use oncall_agent.Auth.State.{
  Auth, Net, Request, Session, Scope, nobody, console_scope, webhook_scope,
}
use oncall_agent.Auth.Sessions.{Found, no_session, session, get_session}
use oncall_agent.Auth.Checks.{bearer, origin_ok, cookie_secure}
use oncall_agent.Auth.Checks.Tokens.{HasToken, Holds, bearer-Holds, bearer-present}
use oncall_agent.Auth.Gate.{
  Verdict, deny, grant, is_safe, is_alert_post, bearer_verdict, session_verdict, authenticate,
  rate_if, charge, middleware,
}

module _ (net : Net) (now : ℕ) (a : Auth) (r : Request) where
  -- There is no header, and the cookie names a session that is stored and has not expired; the
  -- transport is encrypted where it must be, and a request that may write carries the session's
  -- CSRF token and comes from the same origin.
  pub record HasSession (id : Text) : Type 0 where
    pub sid : Text
    pub held : Session
    pub identity : id ≡ codes "session:" ++ sid
    pub no_header : r.authorization ≡ []
    pub enabled : a.has_console ≡ true
    pub cookie : r.cookie ≡ some sid
    pub stored : lookup sid a.sessions ≡ some held
    pub unexpired : now ≤ held.expires
    pub transport : (r.tls ≡ true) ⊎ (cookie_secure net a r ≡ false)
    pub guarded : (is_safe r ≡ true) ⊎ (origin_ok net r true ≡ true) × (r.csrf_token ≡ held.csrf)

  -- The three ways in.
  abbrev pub MayEnter : Scope → Text → Type 0
  MayEnter scope id =
      (scope ≡ console_scope) × HasToken net r.authorization a.has_console a.console
      ⊎ (scope ≡ webhook_scope)
        × (is_alert_post r ≡ true)
        × HasToken net r.authorization a.has_webhook a.webhook
      ⊎ (scope ≡ console_scope) × HasSession id

  charge-grant :
      (a' : Auth) (v : Verdict) {b : Auth} {scope : Scope} {id : Text}
      → charge now a' r v ≡ (b, grant scope id)
      → v ≡ grant scope id
  unfolding charge rate_if
  charge-grant a' (deny status code) h = cc
  charge-grant a' (grant s i) h = ground arith

  bearer_verdict-grant :
      (s : Scope) {scope : Scope} {id : Text}
      → Holds net a r.authorization s
      → bearer_verdict a r s ≡ grant scope id
      → MayEnter scope id
  unfolding bearer_verdict
  bearer_verdict-grant nobody h e = absurd (ground arith)
  bearer_verdict-grant console_scope h e = inl (cc, h)
  bearer_verdict-grant webhook_scope h e = inr (inl (ground arith, ground arith, h))

  -- A session that is found is the stored one, and finding it changes nothing.
  found-stored :
      (c : Option Text) {sid : Text} {s : Session}
      → (get_session now a c).1 ≡ session sid s
      → ((get_session now a c).0 ≡ a)
        × (c ≡ some sid)
        × (lookup sid a.sessions ≡ some s)
        × (now ≤ s.expires)
  unfolding get_session
  found-stored none e = absurd (cc)
  found-stored (some id) e = ground arith

  session_verdict-grant :
      (f : Found) {scope : Scope} {id : Text}
      → (get_session now a r.cookie).1 ≡ f
      → r.authorization ≡ []
      → a.has_console ≡ true
      → session_verdict net (get_session now a r.cookie).0 r f ≡ grant scope id
      → MayEnter scope id
  unfolding session_verdict
  session_verdict-grant no_session found bare on e = absurd (ground arith)
  session_verdict-grant (session sid s) found bare on e =
      let (same, cookie, stored, unexpired) = found-stored r.cookie found in
      let e' : session_verdict net a r (session sid s) ≡ grant _ _ = rw same at e in
      inr (
        inr (
          ground arith,
          record {
            sid = sid;
            held = s;
            identity = ground arith;
            no_header = bare;
            enabled = on;
            cookie = cookie;
            stored = stored;
            unexpired = unexpired;
            transport = ground arith;
            guarded = ground (arith, text_beq_iff r.csrf_token s.csrf);
          },
        ))

  authenticate-MayEnter :
      {b : Auth} {scope : Scope} {id : Text}
      → authenticate net now a r ≡ (b, grant scope id)
      → MayEnter scope id
  unfolding authenticate
  authenticate-MayEnter {b} {scope} {id} h = elim (Bool-cases (r.authorization == [])) [
    | inl bare ↦
        let present : (bearer net a r.authorization).1 ≡ false =
          ground (arith, bearer-present net a r.authorization) in
        elim (Bool-cases a.has_console) [
          | inl on ↦
              session_verdict-grant (get_session now a r.cookie).1 refl
                ((text_beq_iff r.authorization []).0 bare) on (ground arith)
          | inr off ↦ absurd (ground arith)
        ]
    | inr header ↦
        let present : (bearer net a r.authorization).1 ≡ true =
          ground (arith, bearer-present net a r.authorization) in
        bearer_verdict-grant (bearer net a r.authorization).0 (bearer-Holds net a r.authorization)
          (ground arith)
  ]

  -- A request that the middleware hands on, with whatever scope and identity, carries the console
  -- token; or the webhook token, and then it is `POST /alert`; or, with no Authorization header,
  -- the cookie of a stored session that has not expired, over an encrypted transport unless plain
  -- local HTTP is allowed, and then it is a safe method or has the origin and the CSRF token.
  pub middleware-MayEnter :
      {b : Auth} {scope : Scope} {id : Text}
      → middleware net now a r ≡ (b, grant scope id)
      → MayEnter scope id
  unfolding middleware
  middleware-MayEnter {b} {scope} {id} h =
      let (a', v) = authenticate net now a r in
      let e : v ≡ grant scope id = charge-grant a' v h in
      authenticate-MayEnter (ap (λ (z : Verdict). (a', z)) e)
