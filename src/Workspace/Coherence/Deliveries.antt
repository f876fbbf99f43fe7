-- ===== src/Workspace/Coherence/Deliveries.antt =====
-- The transactions of `ProcessNotification` and of a row of `Dispatch` let the tables evolve.
use oncall_agent.Prelude.{ℕ, Option, none, some, Text, ◌≡◌, refl, arith, text_eq, inl, inr, if_elim}
use oncall_agent.Workspace.State.{
  NotificationStatus, Stage, Kind, Run, ApiError, OutboxRow, OutboxKind, Payload, Db, ok,
  Result-cases,
}
use oncall_agent.Workspace.Tables.{Env, load_run, save_run, add_event}
use oncall_agent.Workspace.Finish.{notice_id}
use oncall_agent.Workspace.Notify.{Delivery, is_last, bury, announced, record_delivery, settle}
use oncall_agent.Workspace.Dispatch.{
  Outside, Fate, to_send, to_retry, to_stop, settled, update_row, sent_row, retried, dispatched,
  mark_enqueued, mark_sent, settle_fate, fate, after_enqueue, after_cleanup, dispatch_row,
}
use oncall_agent.Workspace.Coherence.Growth.{
  Sound, Evolves, Evolves-refl, Evolves-trans, Evolves-other, add_event-Evolves, Reads,
  load_run-Reads, update-Evolves, Reads-of_runs,
}

-- An event and then the run with a new notification status.
note-Evolves :
    (env : Env) (status : NotificationStatus) (kind : Kind) (ms : Option ℕ) (ae : Option ApiError)
    (db : Db) (id : Text) (r : Run)
    → Sound db
    → Reads db id r
    → Evolves db
        (save_run (announced status r) (add_event env r Stage.notification kind ms none ae db))
unfolding announced
note-Evolves env status kind ms ae db id r s f =
    let db1 = add_event env r Stage.notification kind ms none ae db in
    let e1 = add_event-Evolves env r Stage.notification kind ms none ae db s in
    let same : db1.runs ≡ db.runs = unfold add_event in refl in
    Evolves-trans e1 (
      update-Evolves db1 id r (announced status r) e1.sound (Reads-of_runs db db1 id r same f) refl
        (omega arith) (omega arith) (λ d. (refl, refl, refl)))

record_delivery-Evolves :
    (env : Env) (d : Delivery) (r : Run) (db : Db) (id : Text)
    → Sound db
    → Reads db id r
    → Evolves db (record_delivery env d id r db)
unfolding record_delivery bury
record_delivery-Evolves env d r db id s f =
    let branch = if_elim (Evolves db) in
    let buried = bury (notice_id id) db in
    let e = Evolves-other db buried s refl refl in
    branch d.delivered _ _ (note-Evolves env _ _ _ _ db id r s f) (
      branch (is_last d.retries) _ _
        (Evolves-trans e
          (note-Evolves env _ _ _ _ buried id r e.sound (Reads-of_runs db buried id r refl f)))
        (note-Evolves env _ _ _ _ db id r s f))

pub settle-Evolves :
    (env : Env) (d : Delivery) (db : Db) (id : Text)
    → Sound db
    → Evolves db (settle env d id db (load_run db id)).0
unfolding settle
settle-Evolves env d db id s = elim (Result-cases (load_run db id)) [
  | inr (x, e) ↦ rw e (Evolves-refl db s)
  | inl (r, e) ↦ rw e (record_delivery-Evolves env d r db id s (load_run-Reads db id s e))
]

update_row-Evolves :
    (f : OutboxRow → OutboxRow) (id : Text) (db : Db) → Sound db → Evolves db (update_row f id db)
unfolding update_row
update_row-Evolves f id db s = Evolves-other db _ s refl refl

mark_enqueued-Evolves :
    (run_id : Option Text) (db : Db) {db' : Db}
    → Sound db
    → mark_enqueued run_id db ≡ ok db'
    → Evolves db db'
unfolding mark_enqueued dispatched
mark_enqueued-Evolves none db {db'} s h =
    let same : db ≡ db' = ground arith in rw (← same) (Evolves-refl db s)
mark_enqueued-Evolves (some id) db {db'} s h = elim (Result-cases (load_run db id)) [
  | inr (x, e) ↦ absurd (ground arith)
  | inl (r, e) ↦
      let same : save_run (dispatched r) db ≡ db' = ground arith in
      rw (← same) (
        update-Evolves db id r (dispatched r) s (load_run-Reads db id s e) refl (omega arith)
          (omega arith) (λ d. (refl, refl, refl)))
]

-- What `dispatchCleanup` is relied on for: it lets the tables evolve.
abbrev pub CleansUp : Outside → Type 0
CleansUp x =
    (id : Text) (row : OutboxRow) (db db' : Db)
    → Sound db
    → x.clean_up id row db ≡ ok db'
    → Evolves db db'

settle_fate-Evolves :
    (env : Env) (id : Text) (row : OutboxRow) (db : Db) (f : Fate) {db' : Db}
    → Sound db
    → ((db'' : Db) → f ≡ settled db'' → Evolves db db'')
    → settle_fate env id row db f ≡ ok db'
    → Evolves db db'
unfolding settle_fate mark_sent
settle_fate-Evolves env id row db (to_send run_id) s c h =
    let e1 = update_row-Evolves sent_row id db s in
    Evolves-trans e1 (mark_enqueued-Evolves run_id (update_row sent_row id db) e1.sound h)
settle_fate-Evolves env id row db (to_retry failure) {db'} s c h =
    let same : update_row (retried env failure row.attempts) id db ≡ db' = ground arith in
    rw (← same) (update_row-Evolves (retried env failure row.attempts) id db s)
settle_fate-Evolves env id row db (to_stop e) s c h = absurd (ground arith)
settle_fate-Evolves env id row db (settled d) {db'} s c h =
    let same : d ≡ db' = ground arith in rw (← same) (c d refl)

fate-settled :
    (x : Outside) (id : Text) (row : OutboxRow) (db db' : Db) (k : OutboxKind) (p : Payload)
    → fate x id row db k p ≡ settled db'
    → x.clean_up id row db ≡ ok db'
unfolding fate after_enqueue after_cleanup
fate-settled x id row db db' k p h = ground arith

pub dispatch_row-Evolves :
    (env : Env) (x : Outside) (id : Text) (row : OutboxRow) (db : Db) {db' : Db}
    → CleansUp x
    → Sound db
    → dispatch_row env x id row db ≡ ok db'
    → Evolves db db'
unfolding dispatch_row
dispatch_row-Evolves env x id row db {db'} c s h =
    let f = fate x id row db row.kind row.payload in
    settle_fate-Evolves env id row db f s
      (λ d e. c id row db d s (fate-settled x id row db d row.kind row.payload e)) (ground arith)
