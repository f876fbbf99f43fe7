-- ===== src/Workspace/Graphs/Tests.antt =====
-- The graph of a run with a retrieval and a cited chunk, cut to three nodes, and the figures of its store.
use oncall_agent.Prelude.{
  ℕ, Option, ◌==◌, if◌then◌else◌, none, some, List, [], ◌∷◌, Text, codes, ◌≡◌, refl, text_beq,
  text_eq, map, decimal, decimal_from, false,
}
use oncall_agent.Workspace.State.{
  Status, DispatchState, EvidenceStatus, NotificationStatus, Run, Evidence, Result, ok, err,
}
use oncall_agent.Workspace.Tables.{Env, stable_id, load_run}
use oncall_agent.Workspace.Admission.{Incident, Store}
use oncall_agent.Workspace.Graphs.{
  Graph, node, edge, report_id, deref, evidence_nodes, evidence_edges, all_nodes, all_edges,
  report_nodes, limit_or, is_visible, visible_edges, cut, whole_graph, empty_graph, run_graph,
  latest_graph, graph_of, graph,
}
use oncall_agent.Workspace.Graphs.Closed.{IsClosed, graph-IsClosed}
use oncall_agent.Workspace.Summary.{
  change_bucket, is_cited, sample, latest_run, latest, is_included, is_outside, add_run, tally,
  insert_day, history, Summary, summary, bound, receive_all, count_runs, summary_window,
}
use oncall_agent.Workspace.Summary.Balanced.{dated, IsBalanced, summary_window-IsBalanced}

program : Unit {0}
unfolding text_beq decimal decimal_from stable_id load_run node edge report_id deref evidence_nodes
    evidence_edges all_nodes all_edges report_nodes limit_or is_visible visible_edges cut
    whole_graph empty_graph run_graph latest_graph graph_of graph
program = tt

abbrev env : Env
env = record { hash = λ s. s; stamp = codes "t1"; later = λ n. codes "t2"; since_ms = λ s. none }

abbrev done : Run
done = record {
  id = codes "r1";
  incident_ids = codes "i1" ∷ [];
  status = Status.succeeded;
  dispatch_state = DispatchState.enqueued;
  evidence_status = EvidenceStatus.has_citations;
  notification_status = NotificationStatus.disabled;
  judge_score = none;
  received_at = codes "t0";
  started_at = none;
  finished_at = none;
  duration_ms = none;
  current_attempt = 1;
  revision = 4;
  report_text = some (codes "report");
  citation_ids = codes "c1" ∷ [];
  error = none;
}

abbrev store : Store
store = record {
  db = record {
    runs =
        (
          codes "r1",
          record {
            status = Status.succeeded;
            attempt = 1;
            revision = 4;
            lease_until = none;
            run = done;
          },
        )
        ∷ [];
    events = [];
    outbox = [];
    citations = [];
    evidence = [];
    retrievals = [];
    retrieval_hits = [];
  };
  incidents =
      (
        codes "i1",
        record {
          id = codes "i1";
          source_namespace = codes "m";
          environment = codes "prod";
          service = codes "db";
          name = codes "disk";
          severity = codes "p1";
          lifecycle_status = codes "active";
          starts_at = none;
          resolved_at = none;
          first_received_at = codes "t0";
          last_observed_at = codes "t0";
          identity_quality = codes "strong";
          latest_run_id = some (codes "r1");
        },
      )
      ∷ [];
  seen = [];
  business = [];
  run_incidents = (codes "r1", codes "i1") ∷ [];
  results = [];
}

abbrev piece : Text → List (Text × Text) → Evidence
piece kind metadata = record {
  kind = kind;
  source_kind = codes "system";
  source_ref = [];
  recorded_at = codes "t1";
  observed_at = none;
  document_id = none;
  version_id = some (codes "v1");
  chunk_id = none;
  snippet = none;
  run_id = some (codes "r1");
  metadata = metadata;
}

abbrev evidence : Text → Text → List (Text × Evidence)
evidence run_id incident_id =
    (codes "q1", piece (codes "retrieval") ((codes "attempt", codes "1") ∷ []))
    ∷ (codes "c1", piece (codes "document_chunk") ((codes "retrieval_id", codes "q1") ∷ []))
    ∷ (codes "q0", piece (codes "retrieval") ((codes "attempt", codes "0") ∷ []))
    ∷ []

abbrev none_drawn : Graph
none_drawn = record {
  revision = 0;
  as_of = [];
  id = [];
  incident_id = [];
  run_id = [];
  nodes = [];
  edges = [];
  truncated = false;
  omitted_nodes = 0;
  omitted_edges = 0;
}

abbrev drawn_by : Result Graph → Graph
drawn_by (ok g) = g
drawn_by (err e) = none_drawn

abbrev drawn : Graph
drawn = drawn_by (graph env evidence 3 0 (codes "i1") [] store)

draws : graph env evidence 3 0 (codes "i1") [] store ≡ ok drawn
unfolding program
draws = refl

graph-IsClosed_example : IsClosed (limit_or 3 60) (limit_or 0 120) drawn
graph-IsClosed_example = graph-IsClosed env evidence 3 0 (codes "i1") [] store drawn draws

kept : map (λ e. e.relation) drawn.edges ≡ codes "contains" ∷ []
unfolding program
kept = refl

omitted : drawn.omitted_nodes ≡ 2
unfolding program
omitted = refl

figures : Unit {0}
unfolding text_beq load_run change_bucket is_cited sample latest_run latest is_included is_outside
    add_run tally insert_day history summary bound receive_all count_runs summary_window dated
figures = tt

-- The times t0 and t1 can be read.
abbrev parse_time : Text → Option ℕ
parse_time s = if s == codes "t0" then some 1 else if s == codes "t1" then some 2 else none

abbrev format_day : ℕ → Text
format_day t = codes "2026-01-01"

abbrev no_figures : Summary
no_figures = record {
  active_incidents = 0;
  no_evidence_incidents = 0;
  source_unavailable_incidents = 0;
  succeeded_runs = 0;
  cited_succeeded_runs = 0;
  mean_diagnosis_ms = none;
  latency_samples = 0;
  citation_coverage = none;
  history = [];
}

abbrev figured_by : Result Summary → Summary
figured_by (ok v) = v
figured_by (err e) = no_figures

abbrev scope : List Incident
scope = map (λ e. e.1) store.incidents

abbrev figured : Summary
figured = figured_by (summary_window parse_time format_day scope (codes "t0") [] store)

figures-eq : summary_window parse_time format_day scope (codes "t0") [] store ≡ ok figured
unfolding figures
figures-eq = refl

named : (format_day 1 == []) ≡ false
unfolding text_beq
named = refl

summary_window-IsBalanced_example : IsBalanced (dated parse_time format_day scope) figured
summary_window-IsBalanced_example =
    summary_window-IsBalanced parse_time format_day (λ t. named) scope (codes "t0") [] store figured
      figures-eq

counted : figured.citation_coverage ≡ some (1, 1)
unfolding figures
counted = refl

-- A run that was received before the window is not counted.
late :
    (figured_by (summary_window parse_time format_day scope (codes "t1") [] store)).succeeded_runs
    ≡ 0
unfolding figures
late = refl
