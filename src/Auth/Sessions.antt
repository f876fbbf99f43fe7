-- ===== src/Auth/Sessions.antt =====
-- The session table: `getSession`, and the part of `login` that purges, evicts and stores.
pub mod Eviction
use oncall_agent.Prelude.{
  ℕ, suc, ◌+◌, ◌≤◌, ◌<◌, Bool, true, false, not, ◌&&◌, ◌||◌, Option, none, some, List, [], ◌∷◌,
  Text, leb, ltb, if◌then◌else◌, ◌==◌, text_eq, length, keep, lookup, insert, delete,
}
use oncall_agent.Auth.State.{Auth, Session}

pub data Found : Type 0 where
  no_session : Found
  session : Text → Session → Found

-- `getSession` on the cookie's value: an expired session is deleted and not returned.
unfoldable pub get_session : ℕ → Auth → Option Text → Auth × Found
get_session now a none = (a, no_session)
get_session now a (some id) = elim (lookup id a.sessions) [
  | none ↦ (a, no_session)
  | some s ↦
      if ltb s.expires now
      then (record a { sessions = delete id a.sessions }, no_session)
      else (a, session id s)
]

unfoldable pub unexpired : ℕ → Text × Session → Bool
unexpired now e = not (ltb e.1.expires now)

-- One round of the loop that looks for the oldest session; the empty id stands for none yet.
unfoldable pub older : Text × ℕ → Text × Session → Text × ℕ
older (old_id, oldest) (k, v) =
    if old_id == [] || ltb v.created oldest then (k, v.created) else (old_id, oldest)

unfoldable pub oldest_from : Text × ℕ → List (Text × Session) → Text × ℕ
unfolding older
oldest_from best [] = best
oldest_from best (e ∷ m) = oldest_from (older best e) m

-- Without room one session is deleted.
unfoldable pub make_room : ℕ → List (Text × Session) → List (Text × Session)
unfolding oldest_from
make_room max m = if leb max (length m) then delete (oldest_from ([], 0) m).0 m else m

unfoldable pub store_session : ℕ → Text → Session → Auth → Auth
unfolding unexpired make_room
store_session now id s a = record a {
  sessions = insert id s (make_room a.max_sessions (keep (unexpired now) a.sessions));
}
