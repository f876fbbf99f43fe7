-- ===== src/Workspace/Coherence/Numbering.antt =====
-- The numbers of the events.
use oncall_agent.Prelude.{
  ℕ, suc, Option, List, [], ◌∷◌, ◌++◌, Text, ◌≡◌, refl, arith, ◌==◌, text_eq, text_beq_iff,
  if◌then◌else◌, ap,
}
use Prim.Native.Nat.{max}
use mathlib.Core.List.{append_assoc, append-nil}
use oncall_agent.Workspace.State.{Run, Event, Stage, Kind, ApiError}
use oncall_agent.Workspace.Tables.{Env, max_sequence, new_event}

-- How many of the events are the run's.
pub event_count : Text → List Event → ℕ
event_count id [] = 0
event_count id (e ∷ es) = let rest = event_count id es in if e.run_id == id then suc rest else rest

-- Each event's number is one more than the number of earlier events of its run.
abbrev pub IsNumbered : List Event → List Event → Type 0
IsNumbered seen [] = Unit
IsNumbered seen (e ∷ es) =
    (e.sequence ≡ suc (event_count e.run_id seen)) × IsNumbered (seen ++ e ∷ []) es

event_count-snoc :
    (id : Text) (es : List Event) (e : Event)
    → event_count id (es ++ e ∷ [])
      ≡ (if e.run_id == id then suc (event_count id es) else event_count id es)
unfolding event_count
event_count-snoc id [] e = refl
event_count-snoc id (x ∷ es) e = ground (arith, event_count-snoc id es e)

max_sequence-IsNumbered :
    (id : Text) (seen es : List Event)
    → IsNumbered seen es
    → max (event_count id seen) (max_sequence id es) ≡ event_count id (seen ++ es)
unfolding max_sequence
max_sequence-IsNumbered id seen [] h = rw append-nil (omega arith)
max_sequence-IsNumbered id seen (e ∷ es) h =
    let ih = max_sequence-IsNumbered id (seen ++ e ∷ []) es h.1 in
    let ih' : max (event_count id (seen ++ e ∷ [])) (max_sequence id es)
        ≡ event_count id (seen ++ e ∷ es) =
      rw append_assoc at ih in
    ground (arith, event_count-snoc id seen e, ih', h.0, text_beq_iff e.run_id id)

IsNumbered-snoc :
    (seen es : List Event) (e : Event)
    → IsNumbered seen es
    → e.sequence ≡ suc (event_count e.run_id (seen ++ es))
    → IsNumbered seen (es ++ e ∷ [])
IsNumbered-snoc seen [] e h q = (rw append-nil at q, tt)
IsNumbered-snoc seen (x ∷ es) e h q =
    (h.0, IsNumbered-snoc (seen ++ x ∷ []) es e h.1 (rw append_assoc q))

-- The event that is added takes the next number of its run.
pub new_event-IsNumbered :
    (env : Env) (r : Run) (stage : Stage) (kind : Kind) (ms : Option ℕ) (ref : Option Text)
    (ae : Option ApiError) (es : List Event)
    → IsNumbered [] es
    → IsNumbered [] (es ++ new_event env r stage kind ms ref ae es ∷ [])
unfolding new_event event_count
new_event-IsNumbered env r stage kind ms ref ae es h =
    let m = max_sequence-IsNumbered r.id [] es h in
    let e : max_sequence r.id es ≡ event_count r.id es = omega (arith, m) in
    IsNumbered-snoc [] es (new_event env r stage kind ms ref ae es) h (ap suc e)
