-- ===== src/Workspace/Topology/Tests.antt =====
-- The theorems of this part on three services in a cycle.
use oncall_agent.Prelude.{
  false, none, [], ◌∷◌, Text, codes, ◌≡◌, refl, text_beq, text_eq, Bool, true, not, has, ◌==◌, ◌≢◌,
}
use oncall_agent.Workspace.Topology.{
  Node, Edge, Snapshot, Moment, view, unbounded, for_service, answer, Walk, around, upstream, walk,
  scan_both, scan_up, reach, reach_by, active_edges, is_current, is_named, view_of, from_focus,
  fuel,
}
use oncall_agent.Workspace.Topology.Settled.{IsClosed}
use oncall_agent.Workspace.Topology.Connected.{around-component}
use oncall_agent.Workspace.Topology.Walks.{for_service-bounded}

program : Unit {0}
unfolding text_beq for_service answer around upstream walk scan_both scan_up reach reach_by
    active_edges is_current is_named view_of from_focus fuel
program = tt

abbrev moment : Moment
moment = record { now = 5; parse_time = λ s. 1; done = λ seen. false }

abbrev node : Text → Node
node s = record {
  id = s;
  environment = codes "prod";
  namespace = codes "ops";
  service = s;
  source_ref = codes "r";
}

abbrev edge : Text → Text → Edge
edge a b = record {
  id = a;
  source = a;
  target = b;
  kind = codes "calls";
  source_ref = a;
  valid_from = codes "t";
  valid_to = none;
}

abbrev cycle : Snapshot
cycle = record {
  valid_from = codes "t";
  valid_to = none;
  nodes = node (codes "a") ∷ node (codes "b") ∷ node (codes "c") ∷ node (codes "d") ∷ [];
  edges =
      edge (codes "a") (codes "b")
      ∷ edge (codes "b") (codes "c")
      ∷ edge (codes "c") (codes "a")
      ∷ [];
}

-- Both services upstream, the farther one by two references.
cycle_view :
    for_service moment cycle (codes "prod") (codes "c")
    ≡ view
        (codes "c")
        (node (codes "a") ∷ node (codes "b") ∷ node (codes "c") ∷ [])
        cycle.edges
        ((codes "a", codes "b" ∷ codes "a" ∷ []) ∷ (codes "b", codes "b" ∷ []) ∷ [])
unfolding program
cycle_view = refl

for_service-bounded_example : for_service moment cycle (codes "prod") (codes "c") ≢ unbounded
for_service-bounded_example = for_service-bounded moment cycle (codes "prod") (codes "c")

-- The walk from `c`, and the set that leaves out `d`.
abbrev seen : Walk
seen = record { visited = codes "a" ∷ codes "b" ∷ codes "c" ∷ []; queue = []; refs = [] }

abbrev not_d : Text → Bool
not_d s = not (s == codes "d")

around-component_example :
    (has (codes "c") seen.visited ≡ true)
    × IsClosed (λ i. has i seen.visited) cycle.edges
    × (not_d (codes "a") ≡ true)
unfolding program
around-component_example =
    around-component moment cycle.edges (codes "c") seen not_d (codes "a") refl refl
      (refl, (refl, (refl, tt))) refl
