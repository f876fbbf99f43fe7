-- ===== src/Auth/Tests.antt =====
-- The theorems of this part at concrete requests.
use oncall_agent.Prelude.{
  ℕ, ◌≤◌, true, false, none, some, List, [], ◌∷◌, codes, ◌≡◌, refl, arith, text_beq, text_eq,
  has_prefix, has_suffix,
}
use oncall_agent.Auth.State.{
  Auth, Net, Url, Request, Session, session_limits, IsValid, console_scope, new, configure_all,
}
use oncall_agent.Auth.Limits.{allow}
use oncall_agent.Auth.Limits.Quota.{Call, granted, Within, granted-le-limit}
use oncall_agent.Auth.Sessions.{
  get_session, no_session, session, store_session, unexpired, make_room, oldest_from, older,
}
use oncall_agent.Auth.Sessions.Eviction.{AreNamed, store_session_drops_oldest}
use oncall_agent.Auth.Checks.{bearer, origin_ok, cookie_secure, localhost}
use oncall_agent.Auth.Gate.{middleware, is_run_post, authenticate}
use oncall_agent.Auth.Gate.Sound.{MayEnter, middleware-MayEnter}
use oncall_agent.Auth.Handlers.{login, logout}
use oncall_agent.Auth.Handlers.Lifecycle.{Opens, login-Opens, login-get_session, logout-get_session}
use oncall_agent.Auth.Handlers.Runs.{Op, gate, log_in, look, log_out, run, Sound, run-new-Sound}

program : Unit {0}
unfolding allow middleware authenticate login logout get_session store_session make_room oldest_from
    older unexpired bearer origin_ok cookie_secure localhost is_run_post text_beq new configure_all
    has_prefix has_suffix
program = tt

abbrev site : Url
site = record {
  scheme = codes "https";
  host = codes "ops";
  path = [];
  raw_query = [];
  fragment = [];
  has_user = false;
}

-- A digest that is the text itself, one site and no port.
abbrev net : Net
net = record { sha256 = λ s. s; parse_url = λ s. some site; split_host_port = λ s. none }

abbrev idle : Auth
idle = record {
  console = codes "key";
  webhook = codes "hook";
  has_console = true;
  has_webhook = true;
  local_http = false;
  ttl = 100;
  max_sessions = 2;
  sessions = [];
  limits = [];
}

idle-IsValid : IsValid idle
idle-IsValid = record {
  session_keys = tt;
  limit_keys = tt;
  session_room = omega arith;
  sessions_bounded = omega arith;
  limits_bounded = omega arith;
}

abbrev asked : ℕ → Call
asked now = record { now = now; key = codes "a"; max = 2 }

abbrev calls : List Call
calls = asked 7 ∷ record { now = 8; key = codes "b"; max = 9 } ∷ asked 8 ∷ asked 9 ∷ []

in_window : (now : ℕ) → 7 ≤ now → now ≤ 9 → Within 7 (codes "a") 2 (asked now)
in_window now h k = record {
  positive = omega arith;
  early = omega arith;
  late = omega arith;
  asks = λ e. refl;
}

other_call : Within 7 (codes "a") 2 (record { now = 8; key = codes "b"; max = 9 })
unfolding program
other_call = record {
  positive = omega arith;
  early = omega arith;
  late = omega arith;
  asks = λ e. absurd (ground arith);
}

granted-le-limit_example : granted (codes "a") idle calls ≤ 2
granted-le-limit_example = granted-le-limit 7 (codes "a") 2 idle calls idle-IsValid refl (
  in_window 7 (omega arith) (omega arith),
  (
    other_call,
    (in_window 8 (omega arith) (omega arith), (in_window 9 (omega arith) (omega arith), tt)),
  ),
)

-- Two sessions, and no room for a third.
abbrev old_session : Session
old_session = record { csrf = codes "x"; expires = 101; created = 1 }

abbrev young_session : Session
young_session = record { csrf = codes "y"; expires = 102; created = 2 }

abbrev full : Auth
full = record idle { sessions = (codes "young", young_session) ∷ (codes "old", old_session) ∷ [] }

full-IsValid : IsValid full
unfolding program
full-IsValid = record {
  session_keys = (refl, (refl, tt));
  limit_keys = tt;
  session_room = omega arith;
  sessions_bounded = omega arith;
  limits_bounded = omega arith;
}

full-AreNamed : AreNamed full.sessions
unfolding program
full-AreNamed = (refl, (refl, tt))

store_session_drops_oldest_example : old_session.created ≤ young_session.created
unfolding program
store_session_drops_oldest_example =
    store_session_drops_oldest 3 (codes "new") (record { csrf = []; expires = 103; created = 3 })
      full (codes "old") (codes "young") old_session young_session full-IsValid full-AreNamed refl
      refl refl refl refl

-- A write with the session's cookie, its CSRF token and the site's origin.
abbrev write : Request
write = record {
  authorization = [];
  cookie = some (codes "old");
  method = codes "POST";
  path = codes "/api/v1/incidents/7/runs";
  host = codes "ops";
  origin = codes "https://ops";
  csrf_token = codes "x";
  remote_addr = codes "10.0.0.1";
  tls = true;
}

middleware-MayEnter_example : MayEnter net 5 full write console_scope (codes "session:old")
unfolding program
middleware-MayEnter_example =
    middleware-MayEnter net 5 full write {b = (middleware net 5 full write).0} refl

abbrev sign_in : Request
sign_in = record write { authorization = codes "Bearer key"; cookie = none }

login-Opens_example :
    (codes "new" ≡ codes "new")
    × (codes "c" ≡ codes "c")
    × Opens net 5 (codes "new") (codes "c") sign_in full true 105
unfolding program
login-Opens_example = login-Opens net 5 (codes "new") (codes "c") sign_in full refl

login-get_session_example :
    (get_session 105 (login net 5 (codes "new") (codes "c") full sign_in).0 (some (codes "new"))).1
    ≡ session (codes "new") (record { csrf = codes "c"; expires = 105; created = 5 })
unfolding program
login-get_session_example =
    login-get_session net 5 (codes "new") (codes "c") sign_in full {secure = true} {expires = 105}
      105 refl

logout-get_session_example :
    (get_session 6 (logout net 5 full write).0 (some (codes "old"))).1 ≡ no_session
logout-get_session_example = logout-get_session net 5 6 full write

abbrev requests : List (ℕ × Op)
requests =
    (5, log_in (codes "new") (codes "c") sign_in)
    ∷ (6, gate write)
    ∷ (7, look write)
    ∷ (8, log_out write)
    ∷ []

run-new-Sound_example :
    Sound (run net (new net (codes "key") (codes "hook") (session_limits 100 2 ∷ [])) requests)
unfolding program
run-new-Sound_example =
    run-new-Sound net (codes "key") (codes "hook") (session_limits 100 2 ∷ []) requests
      (refl, (tt, (tt, (tt, tt))))
