-- ===== src/Agent/Loop.antt =====
-- internal/agent/react.go: `Run`, the ReAct loop of at most three rounds, and the fallback without a
-- model; internal/tool/tool.go: the whitelist of the tools.
pub mod Cited
use oncall_agent.Prelude.{
  ℕ, zero, suc, Bool, true, false, not, ◌&&◌, ◌||◌, Option, none, some, List, [], ◌∷◌, ◌++◌, Text,
  codes, if◌then◌else◌, ◌==◌, text_eq, has, keep, map, trim_space,
}
use oncall_agent.Retrieval.Anchor.{Unicode}
use oncall_agent.Agent.Evidence.{
  Hit, Citation, citation_from_hit, safe_report, trunc, evidence_report, qualified_query,
}
use oncall_agent.Agent.Conversations.{Call, Msg, Table, message, begin, store}

pub base_tools : List Text
base_tools = codes "time_now" ∷ codes "rag_search" ∷ codes "prometheus_query" ∷ []

unfoldable pub allowed_for : Text → List Text
unfolding base_tools trim_space
allowed_for repo =
    if trim_space repo == [] then base_tools else base_tools ++ codes "deploy_events" ∷ []

unfoldable pub is_allowed : Text → Text → Bool
unfolding allowed_for
is_allowed repo name = has name (allowed_for repo)

-- A model's reply: its text and the calls that it asks for.
pub record Answer : Type 0 where
  pub content : Text
  pub tool_calls : List Call

-- What the loop meets: the model, with tools and without; the tools' implementations; whether the
-- context is cancelled; which sources are there; the prompts and the JSON of the fallback's call.
-- `none` is an error. All may depend on the messages so far, so that they need not answer twice alike.
pub record World : Type 0 where
  pub unicode : Unicode
  pub env : Text
  pub repo : Text
  pub chat : List Msg → Option Answer
  pub chat_final : List Msg → Option Text
  pub call_tool : List Msg → Call → Option (Text × List Hit)
  pub cancelled : List Msg → Bool
  pub has_tools : Bool
  pub has_knowledge : Bool
  pub prompt : Text → Text
  pub search_call : Text → Call

-- `ExecWithContext`: only a tool on the whitelist is called.
unfoldable pub exec : World → List Msg → Call → Option (Text × List Hit)
unfolding is_allowed
exec w msgs c = if not (is_allowed w.repo c.name) then none else w.call_tool msgs c

-- The citations so far, and the keys of the hits that have been cited.
pub record Cites : Type 0 where
  pub cites : List Citation
  pub seen : List Text

abbrev pub hit_key : Hit → Text
hit_key h = h.doc_id ++ 0 ∷ (h.version_id ++ 0 ∷ h.chunk_id)

-- The loop over the hits of one call.
unfoldable pub cite_hits : World → Text → List Hit → Cites → Cites
cite_hits w query [] st = st
cite_hits w query (h ∷ hs) st = cite_hits w query hs (
    if qualified_query w.unicode w.env query h && not (has (hit_key h) st.seen)
    then record { cites = st.cites ++ citation_from_hit h ∷ []; seen = hit_key h ∷ st.seen }
    else st)

-- How the loop ends: with an answer, or with the error of a tool, of the context or of the model.
pub data End : Type 0 where
  answered : List Citation → End
  tool_failed : End
  interrupted : End
  model_failed : List Msg → End

-- How the calls of one round end.
pub data Calls : Type 0 where
  go_on : List Msg → Cites → Calls
  stop : End → Calls

tool_message : Call → Text → Msg
tool_message c out = record {
  role = codes "tool";
  content = trunc out 4000;
  tool_calls = [];
  tool_call_id = c.id;
}

abbrev pub lacks_source : World → Call → Bool
lacks_source w c = not w.has_tools || (c.name == codes "rag_search" && not w.has_knowledge)

unfoldable pub run_calls : World → Text → List Msg → Cites → List Call → Calls
unfolding tool_message
run_calls w query msgs st [] = go_on msgs st
run_calls w query msgs st (c ∷ cs) =
    if w.cancelled msgs
    then stop interrupted
    else if lacks_source w c
    then stop tool_failed
    else elim (exec w msgs c) [
      | none ↦ stop tool_failed
      | some (out, hits) ↦
          run_calls w query (msgs ++ tool_message c out ∷ []) (cite_hits w query hits st) cs
    ]

next_round : (List Msg → Cites → End) → Calls → End
next_round rest (stop e) = e
next_round rest (go_on msgs st) = rest msgs st

assistant_message : Answer → Msg
assistant_message a = record {
  role = codes "assistant";
  content = a.content;
  tool_calls = a.tool_calls;
  tool_call_id = [];
}

-- The rounds that are left; without one, the model is asked once more, without tools.
unfoldable pub rounds : World → Text → ℕ → List Msg → Cites → End
unfolding next_round run_calls assistant_message
rounds w query zero msgs st = elim (w.chat_final msgs) [
  | none ↦ model_failed msgs
  | some text ↦ answered st.cites
]
rounds w query (suc n) msgs st = elim (w.chat msgs) [
  | none ↦ model_failed msgs
  | some a ↦ elim a.tool_calls [
    | [] ↦ answered st.cites
    | c ∷ cs ↦
        next_round (rounds w query n)
          (run_calls w query (msgs ++ assistant_message a ∷ []) st (c ∷ cs))
  ]
]

unfoldable pub loop : World → List Msg → Text → End
unfolding rounds
loop w hist query =
    rounds w query 3 (message (codes "system") (w.prompt w.repo) ∷ hist)
      (record { cites = []; seen = [] })

-- The reply with its citations, or an error.
pub data Reply : Type 0 where
  reply : Text → List Citation → Reply
  no_reply : Reply

-- The reply to the hits that qualify.
report_hits : List Hit → Reply
report_hits [] = reply safe_report []
report_hits (h ∷ hs) =
    let cites = map citation_from_hit (h ∷ hs) in reply (evidence_report cites) cites

unfoldable pub fallback : World → Text → Reply
unfolding report_hits
fallback w query =
    if not w.has_tools || not w.has_knowledge
    then no_reply
    else elim (exec w [] (w.search_call query)) [
      | none ↦ no_reply
      | some (out, hits) ↦ report_hits (keep (qualified_query w.unicode w.env query) hits)
    ]

-- What `Run` makes of the loop's end; only an answer of the loop is stored.
unfoldable pub conclude : World → Text → List Msg → Text → Table → End → Table × Reply
conclude w id hist query t (answered cites) =
    (store id hist (evidence_report cites) t, reply (evidence_report cites) cites)
conclude w id hist query t tool_failed = (t, no_reply)
conclude w id hist query t interrupted = (t, no_reply)
conclude w id hist query t (model_failed msgs) =
    if w.cancelled msgs then (t, no_reply) else (t, fallback w query)

unfoldable pub run : World → Text → Text → Table → Table × Reply
unfolding conclude loop fallback
run w session_id user_msg t =
    let query = trim_space user_msg in
    let id = if trim_space session_id == [] then codes "default" else session_id in
    let (t', hist) = begin id query t in
    if query == [] then (t, no_reply) else conclude w id hist query t' (loop w hist query)
