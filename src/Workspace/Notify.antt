-- ===== src/Workspace/Notify.antt =====
-- `ProcessNotification`: one transaction records the start, the webhook is called, and a second one
-- records how it went. What the first wrote stays if a later step fails, and other workers may commit
-- between the reading of the run and the two transactions.
use oncall_agent.Prelude.{
  ℕ, suc, Bool, true, false, not, Option, none, some, List, Text, codes, if◌then◌else◌, text_eq,
  leb, lookup, insert,
}
use oncall_agent.Workspace.State.{
  NotificationStatus, Stage, Kind, Run, ApiError, OutboxState, OutboxRow, Db, Result, ok, err,
  skip_retry, send_failed,
}
use oncall_agent.Workspace.Tables.{Env, load_run, save_run, add_event}
use oncall_agent.Workspace.Finish.{Settings, notice_id}

-- How the delivery went: whether the webhook took it, in how many milliseconds, and the retry count
-- with its maximum, where the task's context has both; and what other workers commit between the
-- reading of the run and the first transaction, and between that and the second.
pub record Delivery : Type 0 where
  pub delivered : Bool
  pub elapsed : ℕ
  pub retries : Option (ℕ × ℕ)
  pub before_start : Db → Db
  pub meanwhile : Db → Db

abbrev pub is_last : Option (ℕ × ℕ) → Bool
is_last none = false
is_last (some (count, most)) = leb most count

abbrev pub is_sent : NotificationStatus → Bool
is_sent NotificationStatus.sent = true
is_sent _ = false

abbrev kill : Text → Option OutboxRow → List (Text × OutboxRow) → List (Text × OutboxRow)
kill key none rows = rows
kill key (some row) rows =
    insert key
      (record row { state = OutboxState.dead; last_error = some (codes "notification_failed") })
      rows

unfoldable pub bury : Text → Db → Db
bury key db = record db { outbox = kill key (lookup key db.outbox) db.outbox }

abbrev notification_failed : Bool → ApiError
notification_failed retryable = record {
  code = codes "notification_failed";
  message = codes "通知投递失败";
  retryable = retryable;
}

unfoldable pub announced : NotificationStatus → Run → Run
announced status r = record r { notification_status = status; revision = suc r.revision }

-- The second transaction, on the run as it then stands.
unfoldable pub record_delivery : Env → Delivery → Text → Run → Db → Db
unfolding announced
record_delivery env d id r db =
    let add = add_event env r Stage.notification in
    let ms = some d.elapsed in
    if d.delivered
    then save_run (announced NotificationStatus.sent r) (add Kind.succeeded ms none none db)
    else if is_last d.retries
    then save_run (announced NotificationStatus.failed r)
        (add Kind.failed ms none (some (notification_failed false)) (bury (notice_id id) db))
    else save_run (announced NotificationStatus.pending r)
        (add Kind.failed ms none (some (notification_failed true)) db)

abbrev delivery_result : Delivery → Result (Unit {0})
delivery_result d = if d.delivered then ok tt else err send_failed

-- After the call of the webhook.
unfoldable pub settle : Env → Delivery → Text → Db → Result Run → Db × Result (Unit {0})
settle env d id db (err e) = (db, err e)
settle env d id db (ok r) = (record_delivery env d id r db, delivery_result d)

-- The first transaction, with the run as it was read before.
unfoldable pub start_notice : Env → Run → Db → Db
start_notice env r db = add_event env r Stage.notification Kind.started none none none db

unfoldable pub attempt_delivery :
    Env → Settings → Delivery → Text → Db → Run → Db × Result (Unit {0})
unfolding settle start_notice
attempt_delivery env s d id db r =
    let started = start_notice env r (d.before_start db) in
    let posted = d.meanwhile started in
    if is_sent r.notification_status
    then (db, ok tt)
    else if not s.webhook
    then (db, err skip_retry)
    else settle env d id posted (load_run posted id)

unfoldable pub notify_run :
    Env → Settings → Delivery → Text → Db → Result Run → Db × Result (Unit {0})
unfolding attempt_delivery
notify_run env s d id db (err e) = (db, err e)
notify_run env s d id db (ok r) = attempt_delivery env s d id db r

unfoldable pub process_notification : Env → Settings → Delivery → Db → Text → Db × Result (Unit {0})
unfolding notify_run
process_notification env s d db id = notify_run env s d id db (load_run db id)
