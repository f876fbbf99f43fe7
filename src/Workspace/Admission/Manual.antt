-- ===== src/Workspace/Admission/Manual.antt =====
-- `ReDiagnose`: a request for a new run of an incident, under an idempotency key.
use oncall_agent.Prelude.{
  Bool, not, ◌&&◌, Option, none, some, List, [], ◌∷◌, ◌++◌, Text, codes, if◌then◌else◌, ◌==◌,
  text_eq, ltb, lookup,
}
use oncall_agent.Workspace.State.{
  Run, Result, ok, err, no_rows, invalid, unavailable, conflict, guard, ◌>>=◌, ◌>>◌,
}
use oncall_agent.Workspace.Tables.{load_run}
use oncall_agent.Workspace.Admission.{
  Observation, Incident, Answered, Store, Formats, last_seen, insert_run, new_run,
}

-- The row of a scope and a key.
unfoldable pub find_result : Text → Text → List Answered → Option Answered
find_result scope key [] = none
find_result scope key (a ∷ rest) =
    if a.scope == scope && a.key == key then some a else find_result scope key rest

unfoldable pub run_scope : Text → Text
run_scope incident_id = codes "run:" ++ incident_id

-- The result of an earlier request with the key.
unfoldable pub earlier_result : Formats → Text → Store → Answered → Result (Store × Run)
earlier_result f body s a =
    if not (a.body_hash == f.env.hash body)
    then err conflict
    else load_run s.db a.result_id >>= λ r. ok (s, r)

unfoldable pub loaded : Option Incident → Result Incident
loaded none = err no_rows
loaded (some inc) = ok inc

unfoldable pub observed : Option Observation → Result (Unit {0})
observed none = err invalid
observed (some o) = ok tt

unfoldable pub put_result : Formats → Text → Text → Text → Run → Store → Store × Run
unfolding run_scope
put_result f incident_id key body r s =
    let a : Answered = record {
      scope = run_scope incident_id;
      key = key;
      body_hash = f.env.hash body;
      result_id = r.id;
    } in
    (record s { results = s.results ++ a ∷ [] }, r)

unfoldable pub first_result : Formats → Text → Text → Text → Bool → Store → Result (Store × Run)
unfolding loaded observed put_result run_scope
first_result f incident_id key body ready s =
    let business = f.env.hash (codes "manual:" ++ incident_id ++ codes ":" ++ key) in
    guard ready unavailable >> loaded (lookup incident_id s.incidents) >>= λ inc.
    observed (last_seen incident_id s.seen)
    >> insert_run f (new_run f business (inc.id ∷ [])) business s
    >>= λ s'. ok (put_result f incident_id key body (new_run f business (inc.id ∷ [])) s')

unfoldable pub re_diagnose : Formats → Text → Text → Text → Bool → Store → Result (Store × Run)
unfolding find_result earlier_result first_result run_scope
re_diagnose f incident_id key body ready s =
    guard (not (key == []) && not (ltb 200 (f.byte_length key))) invalid
    >> answer (find_result (run_scope incident_id) key s.results)
  where
    answer : Option Answered → Result (Store × Run)
    answer none = first_result f incident_id key body ready s
    answer (some a) = earlier_result f body s a
