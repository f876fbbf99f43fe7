-- ===== src/Agent/Tests.antt =====
-- The theorems of this part, and of the test of overlap, at a question and its hits.
use oncall_agent.Prelude.{
  ◌≤◌, true, false, ◌&&◌, none, some, List, [], ◌∷◌, ◌++◌, Text, codes, map, ◌≡◌, refl, text_beq,
  text_eq, ◌==◌, leb, length, if◌then◌else◌, trim_space, contains, fields_from,
}
use oncall_agent.Retrieval.Anchor.{Unicode, is_break, lexical_anchor, add_pairs}
use oncall_agent.Retrieval.Anchor.Overlap.{Overlaps, lexical_anchor-Overlaps}
use oncall_agent.Agent.Evidence.{Hit, citation_from_hit, qualified_query}
use oncall_agent.Agent.Conversations.{Call, Msg, message, begin, store, last_messages}
use oncall_agent.Agent.Conversations.Bounded.{
  IsBounded, IsEnd, Use, asks, stores, clears, apply_all, no_conversations, apply_all-IsSmall,
  store-begin,
}
use oncall_agent.Agent.Loop.{World, loop, run, exec, cite_hits}
use oncall_agent.Agent.Loop.Cited.{AreCited, IsReport, loop-AreCited, run-IsReport}

program : Unit {0}
unfolding text_beq trim_space contains fields_from is_break lexical_anchor add_pairs
    citation_from_hit qualified_query loop exec cite_hits last_messages
program = tt

-- The code points of ASCII.
abbrev ascii : Unicode
ascii = record {
  to_lower = λ c. c;
  is_letter = λ c. leb 97 c && leb c 122;
  is_digit = λ c. leb 48 c && leb c 57;
  is_han = λ c. false;
}

abbrev disk : Hit
disk = record {
  doc = codes "disk";
  snippet = codes "disk full: rotate logs";
  doc_id = codes "d1";
  version_id = codes "v1";
  chunk_id = codes "c1";
  source = codes "upload";
  environment = [];
}

-- Of the hits one is cited, one is a repetition and one is of another environment.
abbrev hits : List Hit
hits = disk ∷ record disk { environment = codes "test"; chunk_id = codes "c2" } ∷ disk ∷ []

abbrev search : Call
search = record {
  id = codes "1";
  kind = codes "function";
  name = codes "rag_search";
  arguments = [];
}

-- A model that asks for the search and then answers.
abbrev world : World
world = record {
  unicode = ascii;
  env = codes "prod";
  repo = [];
  chat = λ ms.
      if leb (length ms) 2
      then some (record { content = []; tool_calls = search ∷ [] })
      else some (record { content = codes "invented"; tool_calls = [] });
  chat_final = λ ms. none;
  call_tool = λ ms c. some (codes "out", hits);
  cancelled = λ ms. false;
  has_tools = true;
  has_knowledge = true;
  prompt = λ repo. codes "system";
  search_call = λ q. search;
}

abbrev question : Text
question = codes "why disk full"

abbrev asked : List Msg
asked = message (codes "user") question ∷ []

loop-AreCited_example : AreCited world question (citation_from_hit disk ∷ [])
unfolding program
loop-AreCited_example = loop-AreCited world question asked (citation_from_hit disk ∷ []) refl

run-IsReport_example :
    IsReport world (trim_space question) (run world (codes "s") question no_conversations).1
run-IsReport_example = run-IsReport world (codes "s") question no_conversations

abbrev uses : List Use
uses =
    asks (codes "s") question
    ∷ stores (codes "s") asked (codes "report")
    ∷ asks (codes "u") question
    ∷ clears (codes "s")
    ∷ []

apply_all-IsSmall_example :
    (length (apply_all no_conversations uses).sessions ≤ 256)
    × IsBounded (apply_all no_conversations uses)
apply_all-IsSmall_example = apply_all-IsSmall uses

store-begin_example :
    (kept : List Msg) × IsEnd kept (asked ++ message (codes "assistant") (codes "report") ∷ [])
    × ((begin
          (codes "s")
          question
          (store (codes "s") asked (codes "report") (apply_all no_conversations uses))).1
        ≡ kept ++ message (codes "user") question ∷ [])
store-begin_example =
    store-begin (codes "s") asked (codes "report") question (apply_all no_conversations uses)
      (apply_all-IsSmall uses).1

lexical_anchor-Overlaps_example :
    ((trim_space (codes " disk full") == []) ≡ false)
    × Overlaps ascii
        (map ascii.to_lower (trim_space (codes " disk full")))
        (map ascii.to_lower (codes "the disk is full"))
unfolding program
lexical_anchor-Overlaps_example =
    lexical_anchor-Overlaps ascii (codes " disk full") (codes "the disk is full") refl
