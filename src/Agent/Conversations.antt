-- ===== src/Agent/Conversations.antt =====
-- internal/agent/react.go: the table of conversations, which forgets the one that was used least
-- recently. `begin` and `store` are the two locked sections of `Run`; other requests come between.
pub mod Bounded
use oncall_agent.Prelude.{
  ℕ, suc, ◌-◌, Bool, true, false, Option, none, some, List, [], ◌∷◌, ◌++◌, Text, codes,
  if◌then◌else◌, ltb, ◌==◌, text_eq, length, drop, lookup, insert, delete, trim_space,
}

pub record Call : Type 0 where
  pub id : Text
  pub kind : Text
  pub name : Text
  pub arguments : Text

pub record Msg : Type 0 where
  pub role : Text
  pub content : Text
  pub tool_calls : List Call
  pub tool_call_id : Text

-- `order` begins with the conversation that was used longest ago.
pub record Table : Type 0 where
  pub sessions : List (Text × List Msg)
  pub order : List Text

-- Only the first occurrence goes.
unfoldable pub remove_first : Text → List Text → List Text
remove_first id [] = []
remove_first id (x ∷ xs) = if x == id then xs else x ∷ remove_first id xs

-- The loop that evicts while there are more than MaxSessions.
unfoldable pub evict : List Text → List (Text × List Msg) → Table
evict [] sessions = record { sessions = sessions; order = [] }
evict (old ∷ order) sessions =
    let rest = evict order (delete old sessions) in
    if ltb 256 (suc (length order))
    then rest
    else record { sessions = sessions; order = old ∷ order }

unfoldable pub touch_session : Text → Table → Table
unfolding remove_first evict
touch_session id t = evict (remove_first id t.order ++ id ∷ []) t.sessions

abbrev or_empty : Option (List Msg) → List Msg
or_empty none = []
or_empty (some ms) = ms

abbrev pub message : Text → Text → Msg
message role content = record { role = role; content = content; tool_calls = []; tool_call_id = [] }

-- The history to which a message is put, with the message.
unfoldable pub begin : Text → Text → Table → Table × List Msg
unfolding touch_session
begin id msg t =
    (touch_session id t, or_empty (lookup id t.sessions) ++ message (codes "user") msg ∷ [])

-- The last 20 messages.
unfoldable pub last_messages : List Msg → List Msg
last_messages ms = if ltb 20 (length ms) then drop (length ms - 20) ms else ms

unfoldable pub store : Text → List Msg → Text → Table → Table
unfolding touch_session last_messages
store id hist final t =
    let ms = last_messages (hist ++ message (codes "assistant") final ∷ []) in
    touch_session id (record t { sessions = insert id ms t.sessions })

-- One conversation is forgotten; the number of those that were.
forget : Text → Table → Option (List Msg) → Table × ℕ
forget id t none = (t, 0)
forget id t (some ms) =
    (record { sessions = delete id t.sessions; order = remove_first id t.order }, 1)

unfoldable pub clear_sessions : Text → Table → Table × ℕ
unfolding forget remove_first trim_space
clear_sessions id t =
    if trim_space id == []
    then (record { sessions = []; order = [] }, length t.sessions)
    else forget id t (lookup id t.sessions)
