-- ===== src/Auth/Handlers/Runs.antt =====
-- Sequences of requests to the endpoints, and what the tables keep under them.
use oncall_agent.Prelude.{
  ℕ, ◌+◌, ◌≤◌, false, Option, none, some, List, [], ◌∷◌, ◌++◌, Text, codes, ◌==◌, text_eq, ◌≡◌,
  refl, arith, All, delete, delete-Distinct, length-delete-le, insert, keep, All-keep_of,
}
use oncall_agent.Auth.State.{
  Auth, Net, Request, Session, Setting, localhost_http, session_limits, IsValid, configure,
  configure_all, new,
}
use oncall_agent.Auth.Limits.{allow, allow-IsValid, allow-fields}
use oncall_agent.Auth.Sessions.{get_session, store_session, unexpired, make_room, oldest_from}
use oncall_agent.Auth.Sessions.Eviction.{AreNamed, store_session-IsValid}
use oncall_agent.Auth.Gate.{middleware}
use oncall_agent.Auth.Gate.Keeps.{middleware-keeps}
use oncall_agent.Auth.Handlers.{login, open_session, current, logout, cookie_id, remote_ip}

-- One request to one of the endpoints, at a time; a login brings its random ids.
pub data Op : Type 0 where
  gate : Request → Op
  log_in : Text → Text → Request → Op
  look : Request → Op
  log_out : Request → Op

pub step : Net → Auth → ℕ × Op → Auth
step net a (now, gate r) = (middleware net now a r).0
step net a (now, log_in id csrf r) = (login net now id csrf a r).0
step net a (now, look r) = (current now a r).0
step net a (now, log_out r) = (logout net now a r).0

pub run : Net → Auth → List (ℕ × Op) → Auth
unfolding step
run net a [] = a
run net a (o ∷ os) = run net (step net a o) os

-- The random id of a login is never empty.
abbrev pub BringsId : ℕ × Op → Type 0
BringsId (now, log_in id csrf r) = (id == []) ≡ false
BringsId (now, gate r) = Unit
BringsId (now, look r) = Unit
BringsId (now, log_out r) = Unit

-- Well formed, and without an empty session id.
pub record Sound (a : Auth) : Type 0 where
  pub valid : IsValid a
  pub named : AreNamed a.sessions

All-delete : (k : Text) (m : List (Text × Session)) → AreNamed m → AreNamed (delete k m)
All-delete k [] h = tt
All-delete k ((j, s) ∷ m) h = ground (arith, All-delete k m h.1)

All-insert :
    (k : Text) (s : Session) (m : List (Text × Session))
    → (k == []) ≡ false
    → AreNamed m
    → AreNamed (insert k s m)
All-insert k s [] h n = (h, tt)
All-insert k s ((j, v) ∷ m) h n = ground (arith, All-insert k s m h n.1)

allow-Sound : (now : ℕ) (a : Auth) (key : Text) (max : ℕ) → Sound a → Sound (allow now a key max).0
allow-Sound now a key max h = record {
  valid = allow-IsValid now a key max h.valid;
  named = rw (allow-fields now a key max).0 h.named;
}

delete-Sound :
    (id : Text) (a : Auth) → Sound a → Sound (record a { sessions = delete id a.sessions })
delete-Sound id a h = record {
  valid = record {
    session_keys = delete-Distinct id a.sessions h.valid.session_keys;
    limit_keys = h.valid.limit_keys;
    session_room = h.valid.session_room;
    sessions_bounded = omega (arith, h.valid.sessions_bounded, length-delete-le id a.sessions);
    limits_bounded = h.valid.limits_bounded;
  };
  named = All-delete id a.sessions h.named;
}

get_session-Sound : (now : ℕ) (a : Auth) (c : Option Text) → Sound a → Sound (get_session now a c).0
unfolding get_session
get_session-Sound now a none h = h
get_session-Sound now a (some id) h = ground (arith, delete-Sound id a h)

make_room-AreNamed : (max : ℕ) (m : List (Text × Session)) → AreNamed m → AreNamed (make_room max m)
unfolding make_room
make_room-AreNamed max m h = ground (arith, All-delete (oldest_from ([], 0) m).0 m h)

store_session-Sound :
    (now : ℕ) (id : Text) (s : Session) (a : Auth)
    → (id == []) ≡ false
    → Sound a
    → Sound (store_session now id s a)
unfolding store_session make_room
store_session-Sound now id s a i h =
    let kept = keep (unexpired now) a.sessions in
    let named = All-keep_of _ (unexpired now) a.sessions h.named in
    record {
      valid = store_session-IsValid now id s a h.valid h.named;
      named = All-insert id s _ i (make_room-AreNamed a.max_sessions kept named);
    }

open_session-Sound :
    (net : Net) (now : ℕ) (id csrf : Text) (a : Auth) (r : Request)
    → (id == []) ≡ false
    → Sound a
    → Sound (open_session net now id csrf a r).0
unfolding open_session
open_session-Sound net now id csrf a r i h = ground (
  arith,
  store_session-Sound now id (record { csrf = csrf; expires = now + a.ttl; created = now }) a,
)

login-Sound :
    (net : Net) (now : ℕ) (id csrf : Text) (a : Auth) (r : Request)
    → (id == []) ≡ false
    → Sound a
    → Sound (login net now id csrf a r).0
unfolding login
login-Sound net now id csrf a r i h =
    let key = codes "login:" ++ remote_ip (net.split_host_port r.remote_addr) r.remote_addr in
    let h' = allow-Sound now a key 5 h in
    let opened = open_session-Sound net now id csrf (allow now a key 5).0 r i h' in ground arith

step-Sound : (net : Net) (a : Auth) (o : ℕ × Op) → BringsId o → Sound a → Sound (step net a o)
unfolding step current logout
step-Sound net a (now, gate r) b h =
    middleware-keeps Sound net now (get_session-Sound now) (allow-Sound now) a r h
step-Sound net a (now, log_in id csrf r) b h = login-Sound net now id csrf a r b h
step-Sound net a (now, look r) b h = get_session-Sound now a r.cookie h
step-Sound net a (now, log_out r) b h =
    delete-Sound (cookie_id r.cookie) (get_session now a r.cookie).0
      (get_session-Sound now a r.cookie h)

run-Sound :
    (net : Net) (a : Auth) (os : List (ℕ × Op)) → All BringsId os → Sound a → Sound (run net a os)
unfolding run
run-Sound net a [] b h = h
run-Sound net a (o ∷ os) b h = run-Sound net (step net a o) os b.1 (step-Sound net a o b.0 h)

record IsFresh (a : Auth) : Type 0 where
  no_sessions : a.sessions ≡ []
  no_limits : a.limits ≡ []
  room : 1 ≤ a.max_sessions

configure_all-IsFresh :
    (opts : List Setting) (a : Auth) → IsFresh a → IsFresh (configure_all opts a)
unfolding configure_all configure
configure_all-IsFresh [] a h = h
configure_all-IsFresh (localhost_http on ∷ opts) a h =
    configure_all-IsFresh opts (configure (localhost_http on) a) (ground arith)
configure_all-IsFresh (session_limits ttl max ∷ opts) a h =
    configure_all-IsFresh opts (configure (session_limits ttl max) a) (ground arith)

IsFresh-Sound : (a : Auth) → IsFresh a → Sound a
IsFresh-Sound a h = record {
  valid = record {
    session_keys = rw h.no_sessions tt;
    limit_keys = rw h.no_limits tt;
    session_room = h.room;
    sessions_bounded = rw h.no_sessions (omega arith);
    limits_bounded = rw h.no_limits (omega arith);
  };
  named = rw h.no_sessions tt;
}

-- Whatever requests arrive, at whatever times, the tables of the state that `New` builds stay
-- well formed: at most `max_sessions` sessions, at least one allowed, and at most 10,000 windows.
-- The ids that logins draw are not empty.
pub run-new-Sound :
    (net : Net) (console webhook : Text) (opts : List Setting) (os : List (ℕ × Op))
    → All BringsId os
    → Sound (run net (new net console webhook opts) os)
unfolding new
run-new-Sound net console webhook opts os b = run-Sound net (new net console webhook opts) os b (
    IsFresh-Sound _ (
      configure_all-IsFresh opts _
        (record { no_sessions = refl; no_limits = refl; room = omega arith })))
