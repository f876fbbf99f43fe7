-- ===== src/Auth/Gate.antt =====
-- The middleware: it denies a request with a status and a code, or hands it on with the scope and
-- the identity that it found. One reading of the clock serves a request.
pub mod Sound
pub mod Keeps
use oncall_agent.Prelude.{
  ℕ, Bool, true, false, not, ◌&&◌, ◌||◌, Option, none, some, List, [], ◌∷◌, ◌++◌, Text, codes,
  if◌then◌else◌, ◌==◌, text_eq, has_prefix, has_suffix,
}
use oncall_agent.Auth.State.{
  Auth, Net, Request, Session, Scope, nobody, console_scope, webhook_scope,
}
use oncall_agent.Auth.Limits.{allow}
use oncall_agent.Auth.Sessions.{Found, no_session, session, get_session}
use oncall_agent.Auth.Checks.{bearer, origin_ok, cookie_secure}

pub data Verdict : Type 0 where
  deny : ℕ → Text → Verdict
  grant : Scope → Text → Verdict

abbrev pub is_read : Request → Bool
is_read r = r.method == codes "GET" || r.method == codes "HEAD"

-- The methods that need no CSRF token.
abbrev pub is_safe : Request → Bool
is_safe r = is_read r || r.method == codes "OPTIONS"

abbrev pub is_alert_post : Request → Bool
is_alert_post r = r.method == codes "POST" && r.path == codes "/alert"

unfoldable pub is_run_post : Request → Bool
is_run_post r =
    r.method == codes "POST"
    && has_prefix r.path (codes "/api/v1/incidents/")
    && has_suffix r.path (codes "/runs")

bearer_verdict : Auth → Request → Scope → Verdict
bearer_verdict a r nobody =
    if not a.has_console && not a.has_webhook
    then deny 503 (codes "auth_not_configured")
    else deny 401 (codes "unauthorized")
bearer_verdict a r webhook_scope =
    if is_alert_post r then grant webhook_scope (codes "webhook") else deny 403 (codes "forbidden")
bearer_verdict a r console_scope = grant console_scope (codes "console")

session_verdict : Net → Auth → Request → Found → Verdict
session_verdict net a r no_session = deny 401 (codes "unauthorized")
session_verdict net a r (session id s) =
    if cookie_secure net a r && not r.tls
    then deny 403 (codes "secure_transport_required")
    else if not (is_safe r) && (not (origin_ok net r true) || not (r.csrf_token == s.csrf))
    then deny 403 (codes "csrf_rejected")
    else grant console_scope (codes "session:" ++ id)

-- The part of the middleware above `c.Set`.
unfoldable pub authenticate : Net → ℕ → Auth → Request → Auth × Verdict
unfolding bearer_verdict session_verdict
authenticate net now a r =
    let (scope, present) = bearer net a r.authorization in
    if present
    then (a, bearer_verdict a r scope)
    else if not a.has_console
    then (a, deny 503 (codes "auth_not_configured"))
    else let (a', found) = get_session now a r.cookie in (a', session_verdict net a' r found)

-- `rate`, where the source calls it only under a condition.
rate_if : Bool → ℕ → Auth → Text → ℕ → Auth × Bool
rate_if false now a key max = (a, true)
rate_if true now a key max = allow now a key max

charge : ℕ → Auth → Request → Verdict → Auth × Verdict
charge now a r (deny status code) = (a, deny status code)
charge now a r (grant scope id) =
    let (a1, reads) = rate_if (is_read r) now a (codes "read:" ++ id) 120 in
    if not reads
    then (a1, deny 429 (codes "rate_limited"))
    else let (a2, runs) = rate_if (is_run_post r) now a1 (codes "runs:" ++ id) 10 in
      if not runs then (a2, deny 429 (codes "rate_limited")) else (a2, grant scope id)

unfoldable pub middleware : Net → ℕ → Auth → Request → Auth × Verdict
unfolding authenticate charge rate_if
middleware net now a r = let (a', v) = authenticate net now a r in charge now a' r v
