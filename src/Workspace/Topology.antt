-- ===== src/Workspace/Topology.antt =====
-- internal/workspace/topology.go: `ForService`, the part of the declared topology around a service.
-- `PersistTopology` and the decoding of `LoadTopology` are input and output.
mod Tests
pub mod Walks
pub mod Settled
pub mod Connected
use oncall_agent.Prelude.{
  ℕ, zero, suc, ◌+◌, ◌*◌, Bool, true, false, not, ◌&&◌, ◌||◌, Option, none, some, List, [], ◌∷◌,
  ◌++◌, Text, codes, if◌then◌else◌, ltb, ◌==◌, text_eq, length, has, keep, lookup, insert, text_lt,
}

pub record Node : Type 0 where
  pub id : Text
  pub environment : Text
  pub namespace : Text
  pub service : Text
  pub source_ref : Text

pub record Edge : Type 0 where
  pub id : Text
  pub source : Text
  pub target : Text
  pub kind : Text
  pub source_ref : Text
  pub valid_from : Text
  pub valid_to : Option Text

-- The fields of the snapshot that `ForService` reads.
pub record Snapshot : Type 0 where
  pub valid_from : Text
  pub valid_to : Option Text
  pub nodes : List Node
  pub edges : List Edge

-- The time now and the parser of times, which gives the zero time for what does not parse; and
-- whether the context is done when a loop has visited so much.
pub record Moment : Type 0 where
  pub now : ℕ
  pub parse_time : Text → ℕ
  pub done : List Text → Bool

ends_after : Moment → Option Text → Bool
ends_after m none = true
ends_after m (some to) = ltb m.now (m.parse_time to)

-- Whether a span of validity includes the present.
unfoldable pub is_current : Moment → Text → Option Text → Bool
unfolding ends_after
is_current m from to = not (ltb m.now (m.parse_time from)) && ends_after m to

unfoldable pub active_edges : Moment → Snapshot → List Edge
unfolding is_current
active_edges m s =
    keep (λ e. is_current m s.valid_from s.valid_to && is_current m e.valid_from e.valid_to) s.edges

unfoldable pub is_named : Text → Text → Node → Bool
is_named environment service n =
    n.environment == environment
    && (n.service == service || n.namespace ++ codes "/" ++ n.service == service || n.id == service)

-- The state of a loop: what has been visited, the queue, and by which references.
pub record Walk : Type 0 where
  pub visited : List Text
  pub queue : List Text
  pub refs : List (Text × List Text)

unfoldable pub reach : Text → Walk → Walk
reach id w =
    if has id w.visited
    then w
    else record w { visited = id ∷ w.visited; queue = w.queue ++ id ∷ [] }

-- One round of the first loop: the neighbours in both directions.
unfoldable pub scan_both : List Edge → Text → Walk → Walk
unfolding reach
scan_both [] id w = w
scan_both (e ∷ es) id w =
    let forward = if e.source == id then reach e.target w else w in
    let both = if e.target == id then reach e.source forward else forward in scan_both es id both

abbrev pub or_none : Option (List Text) → List Text
or_none none = []
or_none (some refs) = refs

-- A service upstream, with the references of the way to it.
unfoldable pub reach_by : Text → Edge → Walk → Walk
unfolding reach
reach_by id e w =
    let refs = or_none (lookup id w.refs) ++ e.source_ref ∷ [] in
    if has e.source w.visited
    then w
    else reach e.source (record w { refs = insert e.source refs w.refs })

-- One round of the second loop: the services upstream.
unfoldable pub scan_up : List Edge → Text → Walk → Walk
unfolding reach_by
scan_up [] id w = w
scan_up (e ∷ es) id w =
    let next = if e.target == id then reach_by id e w else w in scan_up es id next

pub data Ended : Type 0 where
  finished : Walk → Ended
  cancelled : Ended
  out_of_fuel : Ended

-- A loop while the queue is not empty.
unfoldable pub walk : (Text → Walk → Walk) → (List Text → Bool) → ℕ → Walk → Ended
walk scan done zero w = out_of_fuel
walk scan done (suc n) w = elim w.queue [
  | [] ↦ finished w
  | id ∷ queue ↦
      let rest = walk scan done n (scan id (record w { queue = queue })) in
      if done w.visited then cancelled else rest
]

-- Both ends of every edge.
unfoldable pub ends : List Edge → List Text
ends [] = []
ends (e ∷ es) = e.source ∷ e.target ∷ ends es

unfoldable pub from_focus : Text → Walk
from_focus focus = record { visited = focus ∷ []; queue = focus ∷ []; refs = [] }

-- Each id is queued once, so that so many rounds and one are enough.
unfoldable pub fuel : List Edge → ℕ
fuel es = 2 + 2 * length es

unfoldable pub around : Moment → List Edge → Text → Ended
unfolding walk scan_both from_focus fuel
around m es focus = walk (scan_both es) m.done (fuel es) (from_focus focus)

unfoldable pub upstream : Moment → List Edge → Text → Ended
unfolding walk scan_up from_focus fuel
upstream m es focus = walk (scan_up es) m.done (fuel es) (from_focus focus)

-- The answer: the focus, the nodes, the edges and the services upstream with their references, or
-- one of the errors.
pub data Answer : Type 0 where
  view : Text → List Node → List Edge → List (Text × List Text) → Answer
  ambiguous undeclared interrupted unbounded : Answer

insert_impact : Text × List Text → List (Text × List Text) → List (Text × List Text)
insert_impact i [] = i ∷ []
insert_impact i (j ∷ js) = if text_lt j.0 i.0 then j ∷ insert_impact i js else i ∷ j ∷ js

-- By the services' ids.
unfoldable pub sort_impacts : List (Text × List Text) → List (Text × List Text)
unfolding insert_impact text_lt
sort_impacts [] = []
sort_impacts (i ∷ rest) = insert_impact i (sort_impacts rest)

unfoldable pub answer : Snapshot → List Edge → Text → Ended → Ended → Answer
unfolding sort_impacts
answer s es focus (finished seen) (finished up) =
    view focus (keep (λ n. has n.id seen.visited) s.nodes)
      (keep (λ e. has e.source seen.visited && has e.target seen.visited) es) (sort_impacts up.refs)
answer s es focus out_of_fuel up = unbounded
answer s es focus cancelled up = interrupted
answer s es focus (finished seen) cancelled = interrupted
answer s es focus (finished seen) out_of_fuel = unbounded

unfoldable pub view_of : Moment → Snapshot → List Node → Answer
unfolding answer around upstream active_edges
view_of m s [] = undeclared
view_of m s (n ∷ []) =
    let es = active_edges m s in answer s es n.id (around m es n.id) (upstream m es n.id)
view_of m s (n ∷ o ∷ ns) = ambiguous

unfoldable pub for_service : Moment → Snapshot → Text → Text → Answer
unfolding view_of is_named
for_service m s environment service =
    if m.done [] then interrupted else view_of m s (keep (is_named environment service) s.nodes)
