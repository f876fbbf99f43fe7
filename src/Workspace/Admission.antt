-- ===== src/Workspace/Admission.antt =====
-- internal/workspace/admission.go: the tables that a request for a diagnosis writes, and `insertRun`,
-- which puts a run, its evidence, its first events and its outbox row into them in one transaction.
mod Tests
pub mod Manual
pub mod Alerts
pub mod Inserted
pub mod Repeats
use oncall_agent.Prelude.{
  ℕ, Bool, true, false, not, ◌&&◌, ◌||◌, Option, none, some, List, [], ◌∷◌, ◌++◌, Text, codes,
  if◌then◌else◌, ◌==◌, text_eq, lookup, insert, any,
}
use oncall_agent.Workspace.State.{
  Status, DispatchState, EvidenceStatus, NotificationStatus, Stage, Kind, Run, RunRow, Evidence,
  OutboxKind, OutboxState, OutboxRow, Payload, Db, Result, ok, err, no_rows, constraint, guard,
  ◌>>=◌, ◌>>◌,
}
use oncall_agent.Workspace.Tables.{Env, stable_id, add_event}
use oncall_agent.Workspace.Recovery.{diagnosis_id}

pub record Observation : Type 0 where
  pub name : Text
  pub severity : Text
  pub description : Text
  pub labels : List (Text × Text)
  pub annotations : List (Text × Text)
  pub starts_at : Text
  pub ends_at : Text
  pub status : Text

pub record Incident : Type 0 where
  pub id : Text
  pub source_namespace : Text
  pub environment : Text
  pub service : Text
  pub name : Text
  pub severity : Text
  pub lifecycle_status : Text
  pub starts_at : Option Text
  pub resolved_at : Option Text
  pub first_received_at : Text
  pub last_observed_at : Text
  pub identity_quality : Text
  pub latest_run_id : Option Text

-- A row of `alert_observations`.
pub record Seen : Type 0 where
  pub id : Text
  pub incident : Option Text
  pub event_key : Text
  pub observation : Observation

-- A row of `idempotency`.
pub record Answered : Type 0 where
  pub scope : Text
  pub key : Text
  pub body_hash : Text
  pub result_id : Text

-- `business` has the id of the run of each business key, which the table keeps unique.
pub record Store : Type 0 where
  pub db : Db
  pub incidents : List (Text × Incident)
  pub seen : List Seen
  pub business : List (Text × Text)
  pub run_incidents : List (Text × Text)
  pub results : List Answered

-- What the code takes from encoding/json, time and strings, with the clock and sha256 of `Env`. A time
-- is the nanoseconds since the zero time; `five_minutes` is the clock cut to five minutes; `byte_length`
-- is the length in UTF-8.
pub record Formats : Type 0 where
  pub env : Env
  pub json : Observation → Text
  pub json_labels : List (Text × Text) → Text
  pub parse_time : Text → Option ℕ
  pub print_time : ℕ → Text
  pub five_minutes : Text
  pub to_lower : Text → Text
  pub byte_length : Text → ℕ

abbrev none_taken {ℓ} : {V : Type ℓ} → Option V → Bool
none_taken none = true
none_taken (some v) = false

-- The insertion of the run's row: its id and its business key must both be new. The attempt and the
-- revision of the row are the columns' defaults.
unfoldable pub insert_run_row : Run → Text → Store → Result Store
insert_run_row r business s =
    let row : RunRow = record {
      status = r.status;
      attempt = 0;
      revision = 1;
      lease_until = none;
      run = r;
    } in
    let db' = record s.db { runs = insert r.id row s.db.runs } in
    let s' = record s { db = db'; business = insert business r.id s.business } in
    guard (none_taken (lookup r.id s.db.runs) && none_taken (lookup business s.business)) constraint
    >> ok s'

set_latest : Run → Text → Option Incident → Store → Result Store
set_latest r id none s = err no_rows
set_latest r id (some inc) s = ok (record s {
  run_incidents = s.run_incidents ++ (r.id, id) ∷ [];
  incidents = insert id (record inc { latest_run_id = some r.id }) s.incidents;
})

-- The first loop.
unfoldable pub link_incidents : Run → List Text → Store → Result Store
unfolding set_latest
link_incidents r [] s = ok s
link_incidents r (id ∷ ids) s =
    guard (not (any (λ e. e.0 == r.id && e.1 == id) s.run_incidents)) constraint
    >> set_latest r id (lookup id s.incidents) s
    >>= link_incidents r ids

abbrev is_of : Text → Option Text → Bool
is_of id none = false
is_of id (some i) = i == id

-- The incident's observation that was recorded last.
unfoldable pub last_seen : Text → List Seen → Option Observation
last_seen id [] = none
last_seen id (e ∷ es) = later (last_seen id es)
  where
    later : Option Observation → Option Observation
    later (some o) = some o
    later none = if is_of id e.incident then some e.observation else none

unfoldable pub alert_evidence : Formats → Run → Text → Observation → Evidence
alert_evidence f r id o = record {
  kind = codes "alert_observation";
  source_kind = codes "manual";
  source_ref = id;
  recorded_at = r.received_at;
  observed_at = some o.starts_at;
  document_id = none;
  version_id = none;
  chunk_id = none;
  snippet = none;
  run_id = some r.id;
  metadata =
      (codes "observation", f.json o) ∷ (codes "run_id", r.id) ∷ (codes "incident_id", id) ∷ [];
}

put_evidence : Formats → Run → Text → Option Observation → Store → Result Store
unfolding alert_evidence stable_id
put_evidence f r id none s = ok s
put_evidence f r id (some o) s =
    let key = stable_id f.env (codes "alert_") (r.id ++ id) in
    let db' = record s.db { evidence = insert key (alert_evidence f r id o) s.db.evidence } in
    guard (none_taken (lookup key s.db.evidence)) constraint >> ok (record s { db = db' })

-- The second loop.
unfoldable pub put_evidences : Formats → Run → List Text → Store → Result Store
unfolding put_evidence last_seen
put_evidences f r [] s = ok s
put_evidences f r (id ∷ ids) s =
    put_evidence f r id (last_seen id s.seen) s >>= put_evidences f r ids

-- The third loop, over the stages `receive` and `queue`.
unfoldable pub put_events : Formats → Run → Store → Store
put_events f r s =
    let received = add_event f.env r Stage.receive Kind.succeeded none none none s.db in
    record s { db = add_event f.env r Stage.queue Kind.succeeded none none none received }

unfoldable pub put_diagnosis : Formats → Run → Store → Result Store
unfolding diagnosis_id
put_diagnosis f r s =
    let id = diagnosis_id r.id in
    let row : OutboxRow = record {
      kind = OutboxKind.diagnosis;
      payload = Payload.for_run r.id;
      state = OutboxState.pending;
      attempts = 0;
      next_at = f.env.stamp;
      last_error = none;
    } in
    let db' = record s.db { outbox = insert id row s.db.outbox } in
    guard (none_taken (lookup id s.db.outbox)) constraint >> ok (record s { db = db' })

unfoldable pub insert_run : Formats → Run → Text → Store → Result Store
unfolding insert_run_row link_incidents put_evidences put_events put_diagnosis
insert_run f r business s =
    insert_run_row r business s
    >>= link_incidents r r.incident_ids
    >>= put_evidences f r r.incident_ids
    >>= λ s'. put_diagnosis f r (put_events f r s')

-- A new run, as both kinds of request make it.
unfoldable pub new_run : Formats → Text → List Text → Run
unfolding stable_id
new_run f business ids = record {
  id = stable_id f.env (codes "run_") business;
  incident_ids = ids;
  status = Status.queued;
  dispatch_state = DispatchState.pending;
  evidence_status = EvidenceStatus.not_evaluated;
  notification_status = NotificationStatus.disabled;
  judge_score = none;
  received_at = f.env.stamp;
  started_at = none;
  finished_at = none;
  duration_ms = none;
  current_attempt = 0;
  revision = 1;
  report_text = none;
  citation_ids = [];
  error = none;
}
