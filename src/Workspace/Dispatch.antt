-- ===== src/Workspace/Dispatch.antt =====
-- `Dispatch`: the outbox rows that are due, one after the other.
use oncall_agent.Prelude.{
  ℕ, suc, ◌^◌, Bool, true, false, not, ◌&&◌, Option, none, some, List, [], ◌∷◌, Text, codes,
  if◌then◌else◌, text_eq, text_lt, lookup, insert, take,
}
use Prim.Native.Nat.{min}
use oncall_agent.Workspace.State.{
  DispatchState, Run, OutboxKind, OutboxState, OutboxRow, Payload, Db, Error, Result, ok, err,
  cancelled_context, bad_payload, ◌>>=◌,
}
use oncall_agent.Workspace.Tables.{Env, load_run, save_run}

-- What the queue says to a task: a conflict means that the task is queued already.
pub data Enqueued : Type 0 where
  accepted conflict refused : Enqueued

-- What Dispatch takes from elsewhere: whether a queue is configured, its answers, whether the
-- context is done at a row, `dispatchCleanup`, which settles its row by itself, and what other
-- workers commit before a row's transaction.
pub record Outside : Type 0 where
  pub has_queue : Bool
  pub enqueue : Text → OutboxRow → Enqueued
  pub done : Text → Bool
  pub clean_up : Text → OutboxRow → Db → Result Db
  pub meanwhile : Text → Db → Db

abbrev is_pending : OutboxState → Bool
is_pending OutboxState.pending = true
is_pending _ = false

-- SELECT … WHERE state='pending' AND next_at<=? ORDER BY rowid, without its limit.
unfoldable pub due : Text → List (Text × OutboxRow) → List (Text × OutboxRow)
due now [] = []
due now ((id, row) ∷ rows) =
    let rest = due now rows in
    if is_pending row.state && not (text_lt now row.next_at) then (id, row) ∷ rest else rest

-- What became of a row: it is sent, it waits for another try, the loop stops, or it is settled.
pub data Fate : Type 0 where
  to_send : Option Text → Fate
  to_retry : Text → Fate
  to_stop : Error → Fate
  settled : Db → Fate

unfoldable pub after_enqueue : Bool → Enqueued → Option Text → Fate
after_enqueue false answer run_id = to_retry (codes "queue_unavailable")
after_enqueue true accepted run_id = to_send run_id
after_enqueue true conflict run_id = to_send run_id
after_enqueue true refused run_id = to_retry (codes "queue_unavailable")

unfoldable pub after_cleanup : Result Db → Fate
after_cleanup (ok db) = settled db
after_cleanup (err e) = to_retry (codes "cleanup_unavailable")

-- Only a diagnosis has a run whose dispatch state is written. A payload without a run id decodes
-- to the empty id.
unfoldable pub fate : Outside → Text → OutboxRow → Db → OutboxKind → Payload → Fate
unfolding after_enqueue after_cleanup
fate x id row db OutboxKind.cleanup p = after_cleanup (x.clean_up id row db)
fate x id row db OutboxKind.diagnosis (Payload.for_run run_id) =
    after_enqueue x.has_queue (x.enqueue id row) (some run_id)
fate x id row db OutboxKind.diagnosis (Payload.for_version document version) =
    after_enqueue x.has_queue (x.enqueue id row) (some [])
fate x id row db OutboxKind.diagnosis Payload.garbled = to_stop bad_payload
fate x id row db OutboxKind.notification (Payload.for_run run_id) =
    after_enqueue x.has_queue (x.enqueue id row) none
fate x id row db OutboxKind.notification (Payload.for_version document version) =
    after_enqueue x.has_queue (x.enqueue id row) none
fate x id row db OutboxKind.notification Payload.garbled = to_stop bad_payload
fate x id row db OutboxKind.other p = to_retry (codes "queue_unavailable")

-- Seconds until the next try: 1, 2, 4 and so on up to 64.
unfoldable pub backoff : ℕ → ℕ
backoff attempts = 2 ^ min attempts 6

abbrev change_row :
    (OutboxRow → OutboxRow)
    → Text
    → Option OutboxRow
    → List (Text × OutboxRow)
    → List (Text × OutboxRow)
change_row f id none rows = rows
change_row f id (some row) rows = insert id (f row) rows

unfoldable pub update_row : (OutboxRow → OutboxRow) → Text → Db → Db
update_row f id db = record db { outbox = change_row f id (lookup id db.outbox) db.outbox }

unfoldable pub retried : Env → Text → ℕ → OutboxRow → OutboxRow
unfolding backoff
retried env failure attempts row = record row {
  attempts = suc row.attempts;
  next_at = env.later (backoff attempts);
  last_error = some failure;
}

unfoldable pub sent_row : OutboxRow → OutboxRow
sent_row row = record row {
  state = OutboxState.sent;
  attempts = suc row.attempts;
  last_error = none;
}

unfoldable pub dispatched : Run → Run
dispatched r = record r { dispatch_state = DispatchState.enqueued; revision = suc r.revision }

unfoldable pub mark_enqueued : Option Text → Db → Result Db
mark_enqueued none db = ok db
mark_enqueued (some run_id) db = load_run db run_id >>= λ r. ok (save_run (dispatched r) db)

-- The transaction that marks the row sent; it is rolled back if the run is missing.
unfoldable pub mark_sent : Text → Option Text → Db → Result Db
unfolding mark_enqueued
mark_sent id run_id db = mark_enqueued run_id (update_row sent_row id db)

unfoldable pub settle_fate : Env → Text → OutboxRow → Db → Fate → Result Db
settle_fate env id row db (to_send run_id) = mark_sent id run_id db
settle_fate env id row db (to_retry failure) =
    ok (update_row (retried env failure row.attempts) id db)
settle_fate env id row db (to_stop e) = err e
settle_fate env id row db (settled db') = ok db'

-- One round of the loop.
unfoldable pub dispatch_row : Env → Outside → Text → OutboxRow → Db → Result Db
unfolding fate settle_fate
dispatch_row env x id row db =
    if x.done id
    then err cancelled_context
    else settle_fate env id row db (fate x id row db row.kind row.payload)

-- The rounds: the first error ends the loop, and what the rounds before it committed stays.
unfoldable pub go_on : (Db → Db × Result (Unit {0})) → Db → Result Db → Db × Result (Unit {0})
go_on rest db (err e) = (db, err e)
go_on rest db (ok db') = rest db'

unfoldable pub dispatch_rows : Env → Outside → List (Text × OutboxRow) → Db → Db × Result (Unit {0})
unfolding go_on
dispatch_rows env x [] db = (db, ok tt)
dispatch_rows env x ((id, row) ∷ rows) db =
    let now = x.meanwhile id db in
    go_on (dispatch_rows env x rows) now (dispatch_row env x id row now)

unfoldable pub dispatch : Env → Outside → Db → Db × Result (Unit {0})
dispatch env x db = dispatch_rows env x (take 100 (due env.stamp db.outbox)) db
