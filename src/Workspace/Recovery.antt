-- ===== src/Workspace/Recovery.antt =====
-- `Recover`: at startup every run whose process is gone is fenced and queued again.
use oncall_agent.Prelude.{
  suc, true, Option, none, some, List, [], ◌∷◌, ◌++◌, Text, codes, if◌then◌else◌, text_eq, lookup,
  insert,
}
use oncall_agent.Workspace.State.{
  Status, DispatchState, Stage, Kind, Run, RunRow, ApiError, OutboxState, OutboxRow, Db, is_running,
}
use oncall_agent.Workspace.Tables.{Env, save_run, add_event}

-- SELECT data FROM diagnosis_runs WHERE status='running'
unfoldable pub running_runs : List (Text × RunRow) → List Run
running_runs [] = []
running_runs ((id, row) ∷ rows) =
    let rest = running_runs rows in if is_running row.status then row.run ∷ rest else rest

pub interrupted : ApiError
interrupted = record { code = codes "interrupted"; message = codes "上次执行因进程退出中断"; retryable = true }

unfoldable pub requeued : Run → Run
requeued r = record r {
  status = Status.queued;
  dispatch_state = DispatchState.pending;
  current_attempt = suc r.current_attempt;
  revision = suc r.revision;
}

unfoldable pub diagnosis_id : Text → Text
diagnosis_id id = codes "diagnosis:" ++ id

abbrev set_pending :
    Text → Text → Option OutboxRow → List (Text × OutboxRow) → List (Text × OutboxRow)
set_pending key now none rows = rows
set_pending key now (some row) rows =
    insert key (record row { state = OutboxState.pending; next_at = now }) rows

unfoldable pub resend : Env → Text → Db → Db
resend env key db = record db {
  outbox = set_pending key env.stamp (lookup key db.outbox) db.outbox;
}

unfoldable pub recover_run : Env → Run → Db → Db
unfolding diagnosis_id interrupted
recover_run env r db =
    let db1 = add_event env r Stage.queue Kind.failed none none (some interrupted) db in
    resend env (diagnosis_id r.id) (save_run (requeued r) db1)

unfoldable pub recover_all : Env → List Run → Db → Db
recover_all env [] db = db
recover_all env (r ∷ rs) db = recover_all env rs (recover_run env r db)

unfoldable pub recover : Env → Db → Db
recover env db = recover_all env (running_runs db.runs) db
