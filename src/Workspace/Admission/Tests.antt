-- ===== src/Workspace/Admission/Tests.antt =====
-- The theorems of this part on an incident with one observation.
use oncall_agent.Prelude.{
  Bool, true, false, Option, none, some, List, [], ◌∷◌, ◌++◌, Text, codes, ◌≡◌, refl, text_beq,
  text_eq, length, text_lt,
}
use oncall_agent.Workspace.State.{Run, Result, ok, err}
use oncall_agent.Workspace.Tables.{
  Env, load_run, stable_id, add_event, new_event, stage_attempt, max_sequence,
}
use oncall_agent.Workspace.Recovery.{diagnosis_id}
use oncall_agent.Workspace.Admission.{
  Observation, Store, Formats, insert_run, new_run, insert_run_row, link_incidents, put_evidences,
  put_events, put_diagnosis, last_seen,
}
use oncall_agent.Workspace.Admission.Manual.{
  re_diagnose, find_result, first_result, earlier_result, put_result, run_scope, loaded, observed,
}
use oncall_agent.Workspace.Admission.Alerts.{
  admit, admit_ids, admit_at, admit_new, existing, business_key, observe_all, observe, canonical,
  observe_at, observe_known, record_seen, new_incident, start_of, named_labels, sort_texts, unique,
  severity, resolve,
}
use oncall_agent.Workspace.Coherence.Growth.{Sound}
use oncall_agent.Workspace.Coherence.Additions.{insert_run-Evolves}
use oncall_agent.Workspace.Claims.{claimed, start_attempt, lease_run, drop_citations}
use oncall_agent.Workspace.Tables.{save_run}
use oncall_agent.Workspace.Admission.Inserted.{Inserted, insert_run-Inserted}
use oncall_agent.Workspace.Admission.Repeats.{re_diagnose-repeat, admit_ids-repeat}

program : Unit {0}
unfolding text_beq text_lt load_run stable_id add_event new_event stage_attempt max_sequence
    diagnosis_id insert_run new_run insert_run_row link_incidents put_evidences put_events
    put_diagnosis last_seen re_diagnose find_result first_result earlier_result put_result run_scope
    loaded observed admit admit_ids admit_at admit_new existing business_key observe_all observe
    canonical observe_at observe_known record_seen new_incident start_of named_labels sort_texts
    unique severity resolve
program = tt

abbrev env : Env
env = record { hash = λ s. s; stamp = codes "t1"; later = λ n. codes "t2"; since_ms = λ s. none }

abbrev formats : Formats
formats = record {
  env = env;
  json = λ o. o.name;
  json_labels = λ ls. [];
  parse_time = λ s. some (length s);
  print_time = λ t. codes "t";
  five_minutes = codes "t0";
  to_lower = λ s. s;
  byte_length = length;
}

abbrev firing : Observation
firing = record {
  name = codes "Disk";
  severity = codes "p1";
  description = [];
  labels = [];
  annotations = [];
  starts_at = [];
  ends_at = [];
  status = codes "firing";
}

abbrev empty : Store
empty = record {
  db = record {
    runs = [];
    events = [];
    outbox = [];
    citations = [];
    evidence = [];
    retrievals = [];
    retrieval_hits = [];
  };
  incidents = [];
  seen = [];
  business = [];
  run_incidents = [];
  results = [];
}

abbrev admitted : Result (Store × Option Run × Bool) → Store
admitted (err e) = empty
admitted (ok (t, r, b)) = t

abbrev diagnosed : Result (Store × Run) → Store
diagnosed (err e) = empty
diagnosed (ok (t, r)) = t

-- The tables after one firing alert.
abbrev alerted : Store
alerted = admitted (admit formats (firing ∷ []) true empty)

abbrev incident : Text
incident = codes "inc_" ++ codes "alert-v1:alertmanager:unknown::t"

accepted :
    admit formats (firing ∷ []) true empty
    ≡ ok (
      alerted,
      some (new_run formats (business_key formats (incident ∷ [])) (incident ∷ [])),
      false,
    )
unfolding program
accepted = refl

abbrev first_run : Run
first_run = new_run formats (business_key formats (incident ∷ [])) (incident ∷ [])

-- Later, while dependencies are down.
abbrev later : Formats
later = record formats { env = record env { stamp = codes "t9" } }

abbrev received : Result (Store × List Text) → Store
received (err e) = empty
received (ok (t, ids)) = t

admit_ids-repeat_example :
    admit_ids later false (incident ∷ []) alerted ≡ ok (alerted, some first_run, true)
unfolding program
admit_ids-repeat_example =
    admit_ids-repeat formats later (incident ∷ []) true false
      (received (observe_all formats (firing ∷ []) empty)) alerted first_run false refl refl

abbrev manual_key : Text
manual_key = codes "manual:" ++ incident ++ codes ":k"

abbrev manual_run : Run
manual_run = new_run formats manual_key (incident ∷ [])

abbrev again : Store
again = diagnosed (re_diagnose formats incident (codes "k") (codes "body") true alerted)

inserted : insert_run formats manual_run manual_key alerted ≡ ok (record again { results = [] })
unfolding program
inserted = refl

alerted-Sound : Sound alerted.db
unfolding program
alerted-Sound =
    (insert_run-Evolves formats (business_key formats (incident ∷ [])) (incident ∷ [])
      (received (observe_all formats (firing ∷ []) empty)) alerted
      (record { keyed = tt; agrees = tt; numbered = tt }) refl).sound

again-Sound : Sound again.db
again-Sound =
    (insert_run-Evolves formats manual_key (incident ∷ []) alerted (record again { results = [] })
      alerted-Sound inserted).sound

-- The tables after the run has been claimed, and after another request.
abbrev claimed_again : Store
claimed_again = record again {
  db = start_attempt env again.db manual_run;
  results =
      again.results
      ++ record {
        scope = run_scope incident;
        key = codes "k2";
        body_hash = codes "body";
        result_id = codes "r2";
      }
        ∷ [];
}

re_diagnose-repeat_example :
    re_diagnose later incident (codes "k") (codes "body") false claimed_again
    ≡ ok (claimed_again, claimed env manual_run)
unfolding program start_attempt claimed save_run lease_run drop_citations
re_diagnose-repeat_example =
    re_diagnose-repeat formats later incident (codes "k") (codes "body") (codes "body") true false
      alerted again claimed_again manual_run (claimed env manual_run)
      (record {
        scope = run_scope incident;
        key = codes "k2";
        body_hash = codes "body";
        result_id = codes "r2";
      }
        ∷ [])
      refl refl again-Sound refl refl

insert_run-Inserted_example :
    Inserted formats manual_run manual_key alerted (record again { results = [] })
insert_run-Inserted_example =
    insert_run-Inserted formats manual_run manual_key alerted (record again { results = [] })
      inserted
