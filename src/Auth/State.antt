-- ===== src/Auth/State.antt =====
-- The state of `Auth`, the parts of a request that it reads, and what it takes from other packages
-- (sha256, net/url and net). Times and durations are nanoseconds; the zero time is 0.
use oncall_agent.Prelude.{
  ℕ, ◌*◌, ◌^◌, ◌≤◌, Bool, false, Option, List, [], ◌∷◌, Text, length, keys, Distinct, not, ◌==◌,
  text_eq, ltb, if◌then◌else◌,
}

pub record Session : Type 0 where
  pub csrf : Text
  pub expires : ℕ
  pub created : ℕ

pub record Window : Type 0 where
  pub start : ℕ
  pub count : ℕ

-- `console` and `webhook` are digests.
pub record Auth : Type 0 where
  pub console : Text
  pub webhook : Text
  pub has_console : Bool
  pub has_webhook : Bool
  pub local_http : Bool
  pub ttl : ℕ
  pub max_sessions : ℕ
  pub sessions : List (Text × Session)
  pub limits : List (Text × Window)

-- The parts of a parsed URL that the code reads.
pub record Url : Type 0 where
  pub scheme : Text
  pub host : Text
  pub path : Text
  pub raw_query : Text
  pub fragment : Text
  pub has_user : Bool

-- sha256.Sum256, url.Parse and the host of net.SplitHostPort; `none` is an error.
pub record Net : Type 0 where
  pub sha256 : Text → Text
  pub parse_url : Text → Option Url
  pub split_host_port : Text → Option Text

-- A header that is absent is the empty text; `cookie` is the session cookie's value.
pub record Request : Type 0 where
  pub authorization : Text
  pub cookie : Option Text
  pub method : Text
  pub path : Text
  pub host : Text
  pub origin : Text
  pub csrf_token : Text
  pub remote_addr : Text
  pub tls : Bool

pub data Scope : Type 0 where
  nobody console_scope webhook_scope : Scope

pub Scope-discrete : Discrete Scope
Scope-discrete = hlevel

abbrev pub second : ℕ
second = 10 ^ 9

abbrev pub minute : ℕ
minute = 60 * second

abbrev pub hour : ℕ
hour = 60 * minute

-- An option of `New`.
pub data Setting : Type 0 where
  localhost_http : Bool → Setting
  session_limits : ℕ → ℕ → Setting

unfoldable pub configure : Setting → Auth → Auth
configure (localhost_http enabled) a = record a { local_http = enabled }
configure (session_limits ttl max) a =
    let b = if ltb 0 ttl then record a { ttl = ttl } else a in
    if ltb 0 max then record b { max_sessions = max } else b

unfoldable pub configure_all : List Setting → Auth → Auth
unfolding configure
configure_all [] a = a
configure_all (o ∷ opts) a = configure_all opts (configure o a)

unfoldable pub new : Net → Text → Text → List Setting → Auth
unfolding configure_all
new net console_token webhook_token opts = configure_all opts (record {
  console = net.sha256 console_token;
  webhook = net.sha256 webhook_token;
  has_console = not (console_token == []);
  has_webhook = not (webhook_token == []);
  local_http = false;
  ttl = 8 * hour;
  max_sessions = 100;
  sessions = [];
  limits = [];
})

-- The tables have distinct keys and stay within their capacities.
pub record IsValid (a : Auth) : Type 0 where
  pub session_keys : Distinct (keys a.sessions)
  pub limit_keys : Distinct (keys a.limits)
  pub session_room : 1 ≤ a.max_sessions
  pub sessions_bounded : length a.sessions ≤ a.max_sessions
  pub limits_bounded : length a.limits ≤ 10000
