-- ===== src/Workspace/Tables.antt =====
-- The statements on the tables: `decodeRow` of a run, `saveRun`, `addEvent` and `owned`, and the
-- helpers of model.go. `Env` is one reading of the clock, with sha256 in hexadecimal.
use oncall_agent.Prelude.{
  ℕ, suc, Bool, true, false, ◌&&◌, Option, none, some, List, [], ◌∷◌, ◌++◌, Text, codes,
  if◌then◌else◌, ◌==◌, nat_eq, text_eq, lookup, insert, take, decimal,
}
use Prim.Native.Nat.{max}
use oncall_agent.Workspace.State.{
  Stage, Kind, Run, RunRow, Event, ApiError, Db, Result, ok, err, no_rows, fenced, guard,
  is_running,
}

-- `later n` is the stamp `n` seconds from now; `since_ms` the milliseconds since a stamp, if it
-- parses.
pub record Env : Type 0 where
  pub hash : Text → Text
  pub stamp : Text
  pub later : ℕ → Text
  pub since_ms : Text → Option ℕ

unfoldable pub stable_id : Env → Text → Text → Text
stable_id env pre s = pre ++ take 32 (env.hash s)

abbrev row_run : Option RunRow → Result Run
row_run none = err no_rows
row_run (some row) = ok row.run

unfoldable pub load_run : Db → Text → Result Run
load_run db id = row_run (lookup id db.runs)

-- An UPDATE of a row that is not there changes nothing.
abbrev save_row : Run → Option RunRow → List (Text × RunRow) → List (Text × RunRow)
save_row r none rows = rows
save_row r (some row) rows =
    insert r.id
      (record row {
        status = r.status;
        attempt = r.current_attempt;
        revision = r.revision;
        run = r;
      })
      rows

unfoldable pub save_run : Run → Db → Db
save_run r db = record db { runs = save_row r (lookup r.id db.runs) db.runs }

-- The greatest sequence of the run's events, and 0 where it has none.
unfoldable pub max_sequence : Text → List Event → ℕ
max_sequence id [] = 0
max_sequence id (e ∷ es) =
    let rest = max_sequence id es in if e.run_id == id then max e.sequence rest else rest

abbrev is_started : Kind → Bool
is_started Kind.started = true
is_started _ = false

abbrev is_notification : Stage → Bool
is_notification Stage.notification = true
is_notification _ = false

abbrev is_queue : Stage → Bool
is_queue Stage.queue = true
is_queue _ = false

-- Whether the stage is the one that counts the attempts of `of`.
abbrev counts_for : Stage → Stage → Bool
counts_for of stage = if is_notification of then is_notification stage else is_queue stage

unfoldable pub started_count : Stage → Text → List Event → ℕ
started_count of id [] = 0
started_count of id (e ∷ es) =
    let rest = started_count of id es in
    if e.run_id == id && (counts_for of e.stage && is_started e.kind) then suc rest else rest

unfoldable pub stage_attempt : Stage → Kind → Text → List Event → ℕ
unfolding started_count
stage_attempt stage kind id es =
    let n = started_count stage id es in
    max 1 (if counts_for stage stage && is_started kind then suc n else n)

unfoldable pub new_event :
    Env → Run → Stage → Kind → Option ℕ → Option Text → Option ApiError → List Event → Event
unfolding stable_id
new_event env r stage kind ms ref ae es =
    let seq = suc (max_sequence r.id es) in
    record {
      event_id = stable_id env (codes "evt_") (r.id ++ codes ":" ++ decimal seq);
      run_id = r.id;
      attempt = r.current_attempt;
      sequence = seq;
      stage = stage;
      stage_attempt = stage_attempt stage kind r.id es;
      kind = kind;
      occurred_at = env.stamp;
      duration_ms = ms;
      result_ref = ref;
      error = ae;
    }

unfoldable pub add_event :
    Env → Run → Stage → Kind → Option ℕ → Option Text → Option ApiError → Db → Db
add_event env r stage kind ms ref ae db = record db {
  events = db.events ++ new_event env r stage kind ms ref ae db.events ∷ [];
}

-- The attempt and the status that the row's columns hold must be the caller's attempt and `running`.
owned_row : Run → Option RunRow → Result (Unit {0})
owned_row r none = err no_rows
owned_row r (some row) = guard (row.attempt == r.current_attempt && is_running row.status) fenced

unfoldable pub owned : Db → Run → Result (Unit {0})
unfolding owned_row
owned db r = owned_row r (lookup r.id db.runs)
