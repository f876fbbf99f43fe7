-- ===== src/Auth/Checks.antt =====
-- What the middleware and the login read of a request: `bearer`, `localhost`, `originOK` and
-- `cookieSecure`.
pub mod Tokens
use oncall_agent.Prelude.{
  ℕ, Bool, true, false, not, ◌&&◌, ◌||◌, Option, none, some, List, [], ◌∷◌, Text, codes, map,
  if◌then◌else◌, ◌==◌, text_eq, lower_ascii, fields, trim,
}
use oncall_agent.Auth.State.{Auth, Net, Url, Request, Scope, nobody, console_scope, webhook_scope}

-- strings.EqualFold(s, "Bearer"): no letter outside ASCII folds to a letter of "bearer".
is_bearer_word : Text → Bool
unfolding lower_ascii
is_bearer_word s = map lower_ascii s == codes "bearer"

-- The credential of a header of two fields, of which the first is the word "Bearer".
bearer_token : List Text → Option Text
unfolding is_bearer_word
bearer_token (scheme ∷ token ∷ []) = if is_bearer_word scheme then some token else none
bearer_token _ = none

scope_of : Net → Auth → Option Text → Scope
scope_of net a none = nobody
scope_of net a (some token) =
    if a.has_console && net.sha256 token == a.console
    then console_scope
    else if a.has_webhook && net.sha256 token == a.webhook
    then webhook_scope
    else nobody

-- `bearer`: the scope of the credential, and whether there is a header at all.
unfoldable pub bearer : Net → Auth → Text → Scope × Bool
unfolding scope_of bearer_token fields
bearer net a h =
    if h == [] then (nobody, false) else (scope_of net a (bearer_token (fields h)), true)

abbrev host_part : Option Text → Text → Text
host_part none host = host
host_part (some x) host = x

unfoldable pub localhost : Net → Text → Bool
unfolding trim
localhost net host =
    let h = trim (host_part (net.split_host_port host) host) (codes "[]") in
    h == codes "localhost" || h == codes "127.0.0.1" || h == codes "::1"

-- The tests on a parsed origin, the scheme's included.
same_origin : Request → Option Url → Bool
same_origin r none = false
same_origin r (some u) =
    if u.has_user
      || not (u.raw_query == [])
      || not (u.fragment == [])
      || not (u.path == [])
      || not (u.host == r.host)
    then false
    else u.scheme == (if r.tls then codes "https" else codes "http")

unfoldable pub origin_ok : Net → Request → Bool → Bool
unfolding same_origin
origin_ok net r required =
    if r.origin == [] then not required else same_origin r (net.parse_url r.origin)

unfoldable pub cookie_secure : Net → Auth → Request → Bool
unfolding localhost
cookie_secure net a r = not (a.local_http && localhost net r.host && not r.tls)
