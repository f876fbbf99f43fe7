-- ===== src/Workspace/Graphs.antt =====
-- `Graph` of internal/workspace/readmodel.go: the evidence of a run as nodes and edges, cut to limits.
mod Tests
pub mod Closed
use oncall_agent.Prelude.{
  ℕ, ◌-◌, Bool, true, false, not, ◌&&◌, ◌||◌, Option, none, some, List, [], ◌∷◌, ◌++◌, Text, codes,
  if◌then◌else◌, ltb, ◌==◌, text_eq, lookup, any, length, take, decimal, map, has,
}
use oncall_agent.Workspace.State.{
  EvidenceStatus, Run, Evidence, Result, ok, err, no_rows, guard, ◌>>=◌, ◌>>◌,
}
use oncall_agent.Workspace.Tables.{Env, stable_id, load_run}
use oncall_agent.Workspace.Admission.{Incident, Store}
use oncall_agent.Workspace.Finish.{evidence_name}

pub record Node : Type 0 where
  pub id : Text
  pub type : Text
  pub label : Text
  pub subtitle : Text
  pub entity_ref : Text
  pub source_refs : List Text
  pub verification : Text

pub record Edge : Type 0 where
  pub id : Text
  pub source : Text
  pub target : Text
  pub relation : Text
  pub basis : Text
  pub source_refs : List Text
  pub recorded_at : Text
  pub verification : Text

pub record Graph : Type 0 where
  pub revision : ℕ
  pub as_of : Text
  pub id : Text
  pub incident_id : Text
  pub run_id : Text
  pub nodes : List Node
  pub edges : List Edge
  pub truncated : Bool
  pub omitted_nodes : ℕ
  pub omitted_edges : ℕ

unfoldable pub node : Text → Text → Text → Text → Text → Text → Node
node id type label subtitle ref verification = record {
  id = id;
  type = type;
  label = label;
  subtitle = subtitle;
  entity_ref = id;
  source_refs = ref ∷ [];
  verification = verification;
}

unfoldable pub edge : Env → Run → Text → Text → Text → Text → Edge
unfolding stable_id
edge env r from to relation ref = record {
  id = stable_id env (codes "edge_") (from ++ to ++ relation);
  source = from;
  target = to;
  relation = relation;
  basis = codes "recorded";
  source_refs = ref ∷ [];
  recorded_at = r.received_at;
  verification = codes "not_applicable";
}

unfoldable pub report_id : Run → Text
report_id r = codes "report_" ++ r.id

abbrev is_set {ℓ} : {A : Type ℓ} → Option A → Bool
is_set none = false
is_set (some a) = true

-- fmt.Sprint of a key of the metadata.
abbrev printed : Option Text → Text
printed none = codes "<nil>"
printed (some t) = t

unfoldable pub deref : Option Text → Text
deref none = []
deref (some s) = s

-- Whether the evidence is of another attempt than the run's.
abbrev of_other : Run → Option Text → Bool
of_other r none = false
of_other r (some t) = not (t == decimal r.current_attempt)

unfoldable pub evidence_nodes : Run → Text → Evidence → List Node
unfolding node deref
evidence_nodes r id ev =
    let skipped = of_other r (lookup (codes "attempt") ev.metadata) in
    if skipped
    then []
    else if ev.kind == codes "retrieval"
    then node id (codes "retrieval") (codes "检索记录") (printed (lookup (codes "status") ev.metadata))
        id (codes "not_applicable")
      ∷ []
    else if ev.kind == codes "document_chunk"
    then node id (codes "document_chunk") (codes "文档片段") (deref ev.version_id) id
        (codes "unverified")
      ∷ []
    else []

unfoldable pub evidence_edges : Env → Run → Text → Text → Evidence → List Edge
unfolding edge report_id
evidence_edges env r alert id ev =
    let skipped = of_other r (lookup (codes "attempt") ev.metadata) in
    let ret = printed (lookup (codes "retrieval_id") ev.metadata) in
    let produced = edge env r id (report_id r) (codes "produced") id ∷ [] in
    let cites = edge env r (report_id r) id (codes "cites") id ∷ [] in
    if skipped
    then []
    else if ev.kind == codes "retrieval"
    then edge env r alert id (codes "triggered") id
      ∷ (if is_set r.report_text then produced else [])
    else if ev.kind == codes "document_chunk"
    then edge env r ret id (codes "retrieved") id ∷ (if is_set r.report_text then cites else [])
    else []

-- The loop over the evidence.
unfoldable pub all_nodes : Run → List (Text × Evidence) → List Node
unfolding evidence_nodes
all_nodes r [] = []
all_nodes r ((id, ev) ∷ evs) = evidence_nodes r id ev ++ all_nodes r evs

unfoldable pub all_edges : Env → Run → Text → List (Text × Evidence) → List Edge
unfolding evidence_edges
all_edges env r alert [] = []
all_edges env r alert ((id, ev) ∷ evs) =
    evidence_edges env r alert id ev ++ all_edges env r alert evs

unfoldable pub report_nodes : Run → List Node
unfolding node report_id
report_nodes r =
    let id = report_id r in
    if is_set r.report_text
    then node id (codes "report") (codes "诊断报告") (evidence_name r.evidence_status) id
        (codes "unverified")
      ∷ []
    else []

-- `nodeLimit < 1`
unfoldable pub limit_or : ℕ → ℕ → ℕ
limit_or limit default = if ltb limit 1 then default else limit

unfoldable pub is_visible : List Node → Text → Bool
is_visible nodes id = any (λ (n : Node). n.id == id) nodes

-- The loop over the edges: those between visible nodes, as long as there are fewer than the limit.
unfoldable pub visible_edges : ℕ → List Node → List Edge → List Edge → List Edge
unfolding is_visible
visible_edges limit nodes [] kept = kept
visible_edges limit nodes (e ∷ es) kept =
    let next = kept ++ e ∷ [] in
    let shown = is_visible nodes e.source && is_visible nodes e.target in
    visible_edges limit nodes es (if shown && ltb (length kept) limit then next else kept)

unfoldable pub cut : ℕ → ℕ → Graph → Graph
unfolding visible_edges
cut node_limit edge_limit g =
    let nodes = take node_limit g.nodes in
    let edges = visible_edges edge_limit nodes g.edges [] in
    record g {
      nodes = nodes;
      edges = edges;
      omitted_nodes = length g.nodes - length nodes;
      omitted_edges = length g.edges - length edges;
      truncated = ltb (length nodes) (length g.nodes) || ltb (length edges) (length g.edges);
    }

unfoldable pub whole_graph : Env → Text → Text → Incident → Run → List (Text × Evidence) → Graph
unfolding stable_id node edge report_nodes all_nodes all_edges
whole_graph env incident_id run_id inc r evs =
    let alert = stable_id env (codes "alert_") (run_id ++ incident_id) in
    let incident =
      record (node inc.id (codes "incident") inc.name inc.lifecycle_status alert
        (codes "not_applicable")) { entity_ref = inc.id } in
    let received =
      node alert (codes "alert") (codes "原始告警") inc.service alert (codes "not_applicable") in
    record {
      revision = r.revision;
      as_of = env.stamp;
      id = stable_id env (codes "graph_") (incident_id ++ run_id ++ decimal r.revision);
      incident_id = incident_id;
      run_id = run_id;
      nodes = incident ∷ received ∷ (report_nodes r ++ all_nodes r evs);
      edges = edge env r inc.id alert (codes "contains") alert ∷ all_edges env r alert evs;
      truncated = false;
      omitted_nodes = 0;
      omitted_edges = 0;
    }

unfoldable pub empty_graph : Incident → Graph
empty_graph inc = record {
  revision = 0;
  as_of = [];
  id = codes "graph_" ++ inc.id;
  incident_id = inc.id;
  run_id = [];
  nodes = [];
  edges = [];
  truncated = false;
  omitted_nodes = 0;
  omitted_edges = 0;
}

-- The graph of a run that belongs to the incident. `evidence` has the rows of `evidence` of the two, in
-- the order of their insertion.
module _ (env : Env) (evidence : Text → Text → List (Text × Evidence))
    (node_limit edge_limit : ℕ) where
  unfoldable pub run_graph : Text → Incident → Text → Store → Result Graph
  unfolding whole_graph cut limit_or
  run_graph incident_id inc run_id s =
      guard (any (λ e. e.0 == run_id && e.1 == incident_id) s.run_incidents) no_rows
      >> load_run s.db run_id
      >>= λ r. ok (
          cut (limit_or node_limit 60) (limit_or edge_limit 120)
            (whole_graph env incident_id run_id inc r (evidence run_id incident_id)))

  unfoldable pub latest_graph : Text → Incident → Option Text → Store → Result Graph
  unfolding empty_graph run_graph
  latest_graph incident_id inc none s = ok (empty_graph inc)
  latest_graph incident_id inc (some id) s = run_graph incident_id inc id s

  unfoldable pub graph_of : Text → Text → Option Incident → Store → Result Graph
  unfolding latest_graph run_graph
  graph_of incident_id run_id none s = err no_rows
  graph_of incident_id run_id (some inc) s =
      let latest = latest_graph incident_id inc inc.latest_run_id s in
      let named = run_graph incident_id inc run_id s in if run_id == [] then latest else named

  unfoldable pub graph : Text → Text → Store → Result Graph
  unfolding graph_of
  graph incident_id run_id s = graph_of incident_id run_id (lookup incident_id s.incidents) s
