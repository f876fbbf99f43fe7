-- ===== src/Auth/Handlers.antt =====
-- The handlers of /api/v1/auth/session. `login` takes the two random ids and one reading of the
-- clock; a reply holds what the client is told.
pub mod Lifecycle
pub mod Runs
use oncall_agent.Prelude.{
  ℕ, ◌+◌, Bool, true, false, not, ◌&&◌, Option, none, some, List, [], ◌∷◌, ◌++◌, Text, codes,
  if◌then◌else◌, ◌==◌, text_eq, delete,
}
use oncall_agent.Auth.State.{
  Auth, Net, Request, Session, Scope, nobody, console_scope, webhook_scope,
}
use oncall_agent.Auth.Limits.{allow}
use oncall_agent.Auth.Sessions.{Found, no_session, session, get_session, store_session}
use oncall_agent.Auth.Checks.{bearer, origin_ok, cookie_secure}

-- `refused` has a status and a code; `opened` the cookie's value, its flag, the CSRF token and the
-- expiry; `status` what `current` says; `closed` the flag of the cookie that is withdrawn.
pub data Reply : Type 0 where
  refused : ℕ → Text → Reply
  opened : Text → Bool → Text → ℕ → Reply
  status : Option (Text × ℕ) → Reply
  closed : Bool → Reply

abbrev remote_ip : Option Text → Text → Text
remote_ip none addr = addr
remote_ip (some ip) addr = ip

abbrev is_console : Scope → Bool
is_console console_scope = true
is_console nobody = false
is_console webhook_scope = false

-- `login` below the rate limit.
pub open_session : Net → ℕ → Text → Text → Auth → Request → Auth × Reply
open_session net now id csrf a r =
    let secure = cookie_secure net a r in
    if not (is_console (bearer net a r.authorization).0)
    then (a, refused 401 (codes "unauthorized"))
    else if not (origin_ok net r false)
    then (a, refused 403 (codes "csrf_rejected"))
    else if secure && not r.tls
    then (a, refused 403 (codes "secure_transport_required"))
    else let s : Session = record { csrf = csrf; expires = now + a.ttl; created = now } in
      (store_session now id s a, opened id secure csrf (now + a.ttl))

unfoldable pub login : Net → ℕ → Text → Text → Auth → Request → Auth × Reply
unfolding open_session
login net now id csrf a r =
    if not a.has_console
    then (a, refused 503 (codes "auth_not_configured"))
    else let ip = remote_ip (net.split_host_port r.remote_addr) r.remote_addr in
      let (a', passed) = allow now a (codes "login:" ++ ip) 5 in
      if passed then open_session net now id csrf a' r else (a', refused 429 (codes "rate_limited"))

told : Found → Option (Text × ℕ)
told no_session = none
told (session id s) = some (s.csrf, s.expires)

unfoldable pub current : ℕ → Auth → Request → Auth × Reply
unfolding told
current now a r = let (a', found) = get_session now a r.cookie in (a', status (told found))

-- The id that `getSession` returns also where there is no session.
abbrev cookie_id : Option Text → Text
cookie_id none = []
cookie_id (some id) = id

unfoldable pub logout : Net → ℕ → Auth → Request → Auth × Reply
logout net now a r =
    let a' = (get_session now a r.cookie).0 in
    (
      record a' { sessions = delete (cookie_id r.cookie) a'.sessions },
      closed (cookie_secure net a' r),
    )
