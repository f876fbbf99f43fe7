-- ===== src/Workspace/Claims.antt =====
-- `claim` takes a run for a new attempt, and `event` records a stage of the attempt that owns it.
-- A transaction that fails is rolled back: its error carries no state.
use oncall_agent.Prelude.{
  ℕ, suc, Bool, true, false, not, ◌&&◌, Option, none, some, List, [], Text, if◌then◌else◌, ◌==◌,
  text_eq, text_lt, lookup, insert, keep,
}
use oncall_agent.Workspace.State.{
  Status, EvidenceStatus, Stage, Kind, Run, RunRow, ApiError, Db, Result, ok, err, leased, ◌>>=◌,
  ◌>>◌, is_running, is_terminal,
}
use oncall_agent.Workspace.Tables.{Env, load_run, save_run, add_event, owned}

-- Whether the lease is set and stands after the clock, as texts.
abbrev lease_holds : Text → Option RunRow → Bool
lease_holds now none = false
lease_holds now (some row) = lease_after now row.lease_until
  where
    lease_after : Text → Option Text → Bool
    lease_after now none = false
    lease_after now (some lease) = text_lt now lease

unfoldable pub is_leased : Env → Db → Run → Bool
is_leased env db r = is_running r.status && lease_holds env.stamp (lookup r.id db.runs)

unfoldable pub claimed : Env → Run → Run
claimed env r = record r {
  citation_ids = [];
  evidence_status = EvidenceStatus.not_evaluated;
  report_text = none;
  status = Status.running;
  current_attempt = suc r.current_attempt;
  revision = suc r.revision;
  started_at = some env.stamp;
}

abbrev set_lease : Text → Text → Option RunRow → List (Text × RunRow) → List (Text × RunRow)
set_lease id lease none rows = rows
set_lease id lease (some row) rows = insert id (record row { lease_until = some lease }) rows

unfoldable pub lease_run : Text → Text → Db → Db
lease_run id lease db = record db { runs = set_lease id lease (lookup id db.runs) db.runs }

unfoldable pub drop_citations : Text → Db → Db
drop_citations id db = record db { citations = keep (λ c. not (c.run_id == id)) db.citations }

abbrev or_zero : Option ℕ → ℕ
or_zero none = 0
or_zero (some n) = n

-- The transaction below the guards.
unfoldable pub start_attempt : Env → Db → Run → Db
start_attempt env db r =
    let r' = claimed env r in
    let db1 = lease_run r.id (env.later 95) (save_run r' (drop_citations r.id db)) in
    let db2 = add_event env r' Stage.queue Kind.started none none none db1 in
    let wait = some (or_zero (env.since_ms r'.received_at)) in
    add_event env r' Stage.queue Kind.succeeded wait none none db2

-- The run, whether the caller may execute it, and the tables.
unfoldable pub claim : Env → Db → Text → Result (Db × Run × Bool)
claim env db id = load_run db id >>= λ r.
    if is_terminal r.status
    then ok (db, r, false)
    else if is_leased env db r
    then err leased
    else ok (start_attempt env db r, claimed env r, true)

unfoldable pub event :
    Env → Db → Run → Stage → Kind → Option ℕ → Option Text → Option ApiError → Result Db
event env db r stage kind ms ref ae = do owned db r; ok (add_event env r stage kind ms ref ae db)
