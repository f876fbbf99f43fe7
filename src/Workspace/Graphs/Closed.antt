-- ===== src/Workspace/Graphs/Closed.antt =====
-- The bounds of a graph, and its edges between its nodes.
use oncall_agent.Prelude.{
  ℕ, ◌+◌, ◌≤◌, ◌<◌, true, ◌&&◌, List, [], ◌∷◌, ◌++◌, Text, ltb, ◌==◌, text_eq, lookup, length, take,
  All, All-append, length-append, length-take-le, length-take-le_length, ◌≡◌, ◌↔◌, arith,
  Bool-cases, Option-cases, inl, inr,
}
use oncall_agent.Workspace.State.{Evidence, ok, Result-cases}
use oncall_agent.Workspace.Tables.{Env, load_run}
use oncall_agent.Workspace.Admission.{Incident, Store}
use oncall_agent.Workspace.Graphs.{
  Node, Edge, Graph, is_visible, latest_graph, limit_or, visible_edges, cut, whole_graph,
  empty_graph, run_graph, graph_of, graph,
}

pub Joins : List Node → Edge → Type 0
Joins nodes e = (is_visible nodes e.source ≡ true) × (is_visible nodes e.target ≡ true)

-- The nodes and edges are within the limits; every edge joins two of the nodes; and the graph says that it
-- is truncated exactly where it counts something that it has left out.
pub record IsClosed (node_limit edge_limit : ℕ) (g : Graph) : Type 0 where
  pub nodes : length g.nodes ≤ node_limit
  pub edges : length g.edges ≤ edge_limit
  pub joined : All (Joins g.nodes) g.edges
  pub truncated : (g.truncated ≡ true) ↔ (0 < g.omitted_nodes + g.omitted_edges)

visible_edges-le :
    (limit : ℕ) (nodes : List Node) (es kept : List Edge)
    → length kept ≤ limit
    → length (visible_edges limit nodes es kept) ≤ limit
unfolding visible_edges
visible_edges-le limit nodes [] kept h = h
visible_edges-le limit nodes (e ∷ es) kept h =
    let shown = is_visible nodes e.source && is_visible nodes e.target in
    elim (Bool-cases (shown && ltb (length kept) limit)) [
      | inl t ↦ rw t (
          visible_edges-le limit nodes es (kept ++ e ∷ [])
            (ground (arith, t, length-append kept (e ∷ []))))
      | inr f ↦ rw f (visible_edges-le limit nodes es kept h)
    ]

visible_edges-length :
    (limit : ℕ) (nodes : List Node) (es kept : List Edge)
    → length (visible_edges limit nodes es kept) ≤ length kept + length es
unfolding visible_edges
visible_edges-length limit nodes [] kept = omega arith
visible_edges-length limit nodes (e ∷ es) kept =
    let shown = is_visible nodes e.source && is_visible nodes e.target in
    elim (Bool-cases (shown && ltb (length kept) limit)) [
      | inl t ↦ rw t (
          omega (
            arith,
            visible_edges-length limit nodes es (kept ++ e ∷ []),
            length-append kept (e ∷ []),
          ))
      | inr f ↦ rw f (omega (arith, visible_edges-length limit nodes es kept))
    ]

visible_edges-Joins :
    (limit : ℕ) (nodes : List Node) (es kept : List Edge)
    → All (Joins nodes) kept
    → All (Joins nodes) (visible_edges limit nodes es kept)
unfolding visible_edges Joins
visible_edges-Joins limit nodes [] kept h = h
visible_edges-Joins limit nodes (e ∷ es) kept h =
    let shown = is_visible nodes e.source && is_visible nodes e.target in
    elim (Bool-cases (shown && ltb (length kept) limit)) [
      | inl t ↦ rw t (
          visible_edges-Joins limit nodes es (kept ++ e ∷ [])
            (All-append (Joins nodes) kept (e ∷ []) h ((ground arith, ground arith), tt)))
      | inr f ↦ rw f (visible_edges-Joins limit nodes es kept h)
    ]

cut-IsClosed :
    (node_limit edge_limit : ℕ) (g : Graph)
    → IsClosed node_limit edge_limit (cut node_limit edge_limit g)
unfolding cut
cut-IsClosed node_limit edge_limit g =
    let nodes = take node_limit g.nodes in
    let edges = visible_edges edge_limit nodes g.edges [] in
    let n≤ = length-take-le_length node_limit g.nodes in
    let e≤ = visible_edges-length edge_limit nodes g.edges [] in
    record {
      nodes = length-take-le node_limit g.nodes;
      edges = visible_edges-le edge_limit nodes g.edges [] (omega arith);
      joined = visible_edges-Joins edge_limit nodes g.edges [] tt;
      truncated = ground (arith, n≤, e≤);
    }

module _ (env : Env) (evidence : Text → Text → List (Text × Evidence))
    (node_limit edge_limit : ℕ) where
  run_graph-IsClosed :
      (incident_id run_id : Text) (inc : Incident) (s : Store) {g : Graph}
      → run_graph env evidence node_limit edge_limit incident_id inc run_id s ≡ ok g
      → IsClosed (limit_or node_limit 60) (limit_or edge_limit 120) g
  unfolding run_graph
  run_graph-IsClosed incident_id run_id inc s {g} h = elim (Result-cases (load_run s.db run_id)) [
    | inr (x, e) ↦ absurd (ground arith)
    | inl (r, e) ↦
        let whole = whole_graph env incident_id run_id inc r (evidence run_id incident_id) in
        let made : cut (limit_or node_limit 60) (limit_or edge_limit 120) whole ≡ g =
          ground arith in
        rw (← made) (cut-IsClosed (limit_or node_limit 60) (limit_or edge_limit 120) whole)
  ]

  empty_graph-IsClosed : (inc : Incident) (n m : ℕ) → IsClosed n m (empty_graph inc)
  unfolding empty_graph
  empty_graph-IsClosed inc n m = record {
    nodes = omega arith;
    edges = omega arith;
    joined = tt;
    truncated = ground arith;
  }

  -- A graph that is given has at most the number of nodes and edges that were asked for, or 60 and
  -- 120; every edge joins two of its nodes; and it says that it is truncated exactly where it counts
  -- something that it has left out.
  pub graph-IsClosed :
      (incident_id run_id : Text) (s : Store) (g : Graph)
      → graph env evidence node_limit edge_limit incident_id run_id s ≡ ok g
      → IsClosed (limit_or node_limit 60) (limit_or edge_limit 120) g
  unfolding graph graph_of latest_graph
  graph-IsClosed incident_id run_id s g h = elim (Option-cases (lookup incident_id s.incidents)) [
    | inl e ↦ absurd (ground arith)
    | inr (inc, e) ↦ elim (Bool-cases (run_id == [])) [
      | inr n ↦ run_graph-IsClosed incident_id run_id inc s (ground arith)
      | inl y ↦ elim (Option-cases inc.latest_run_id) [
        | inl q ↦
            let made : empty_graph inc ≡ g = ground arith in
            rw (← made)
              (empty_graph-IsClosed inc (limit_or node_limit 60) (limit_or edge_limit 120))
        | inr (id, q) ↦ run_graph-IsClosed incident_id id inc s (ground arith)
      ]
    ]
  ]
