-- ===== src/Workspace/Finish.antt =====
-- `finish`: the transaction that publishes a run's result, its report and its notification.
use oncall_agent.Prelude.{
  ℕ, suc, Bool, true, false, ◌&&◌, ◌||◌, Option, none, some, List, [], ◌∷◌, ◌++◌, Text, codes,
  if◌then◌else◌, text_eq, ltb, lookup, insert,
}
use oncall_agent.Workspace.State.{
  Status, EvidenceStatus, NotificationStatus, Stage, Kind, Run, ApiError, Evidence, OutboxKind,
  OutboxState, OutboxRow, Payload, Db, Result, ok, ◌>>=◌, ◌>>◌,
}
use oncall_agent.Workspace.Tables.{Env, load_run, save_run, add_event, owned}

-- What `finish` is told: the outcome, the report, the score and the elapsed milliseconds.
pub record Outcome : Type 0 where
  pub status : Status
  pub evidence : EvidenceStatus
  pub text : Text
  pub score : Option ℕ
  pub error : Option ApiError
  pub elapsed : ℕ

-- The service's settings: whether a webhook is configured, and the score below which it is told.
pub record Settings : Type 0 where
  pub webhook : Bool
  pub judge_threshold : ℕ

abbrev is_failed : Status → Bool
is_failed Status.failed = true
is_failed _ = false

abbrev pub stage_kind : Status → Kind
stage_kind Status.succeeded = Kind.succeeded
stage_kind _ = Kind.failed

unfoldable pub is_low : ℕ → Option ℕ → Bool
is_low threshold none = false
is_low threshold (some score) = ltb 0 threshold && ltb score threshold

unfoldable pub wants_notice : Settings → Outcome → Bool
unfolding is_low
wants_notice s o = s.webhook && (is_failed o.status || is_low s.judge_threshold o.score)

-- INSERT OR IGNORE
abbrev insert_or_ignore :
    Text → OutboxRow → Option OutboxRow → List (Text × OutboxRow) → List (Text × OutboxRow)
insert_or_ignore id row none rows = insert id row rows
insert_or_ignore id row (some old) rows = rows

unfoldable pub notice_id : Text → Text
notice_id id = codes "notification:" ++ id

unfoldable pub put_notice : Env → Run → Db → Db
unfolding notice_id
put_notice env r db =
    let id = notice_id r.id in
    let row : OutboxRow = record {
      kind = OutboxKind.notification;
      payload = Payload.for_run r.id;
      state = OutboxState.pending;
      attempts = 0;
      next_at = env.stamp;
      last_error = none;
    } in
    record db { outbox = insert_or_ignore id row (lookup id db.outbox) db.outbox }

-- The run as it is written, but for its notification status.
unfoldable pub finished : Env → Outcome → Run → Run → Run
finished env o current r = record r {
  citation_ids = current.citation_ids;
  status = o.status;
  evidence_status = o.evidence;
  report_text = some o.text;
  judge_score = o.score;
  error = o.error;
  finished_at = some env.stamp;
  duration_ms = some o.elapsed;
  revision = suc current.revision;
}

abbrev pub evidence_name : EvidenceStatus → Text
evidence_name EvidenceStatus.not_evaluated = codes "not_evaluated"
evidence_name EvidenceStatus.no_evidence = codes "no_evidence"
evidence_name EvidenceStatus.has_citations = codes "has_citations"
evidence_name EvidenceStatus.source_unavailable = codes "source_unavailable"

unfoldable pub put_report : Env → Outcome → Run → Db → Db
put_report env o r db =
    let row : Evidence = record {
      kind = codes "report";
      source_kind = codes "system";
      source_ref = r.id;
      recorded_at = env.stamp;
      observed_at = none;
      document_id = none;
      version_id = none;
      chunk_id = none;
      snippet = some o.text;
      run_id = some r.id;
      metadata =
          (codes "run_id", r.id)
          ∷ (codes "evidence_status", evidence_name o.evidence)
          ∷ (codes "verification", codes "unverified")
          ∷ [];
    } in
    record db { evidence = insert (codes "report_" ++ r.id) row db.evidence }

-- The notification's part of the transaction: an outbox row, or an event that it was skipped.
unfoldable pub announce : Env → Settings → Outcome → Run → Db → Db × Run
announce env s o r db =
    let noticed = record r { notification_status = NotificationStatus.pending } in
    let silent = record r { notification_status = NotificationStatus.disabled } in
    if wants_notice s o
    then (put_notice env noticed db, noticed)
    else (add_event env silent Stage.notification Kind.skipped none none none db, silent)

unfoldable pub publish : Env → Settings → Outcome → Run → Run → Db → Db
publish env s o current r db =
    let r1 = finished env o current r in
    let db1 =
      add_event env r1 Stage.report (stage_kind o.status) (some o.elapsed) none o.error db in
    let (db2, r2) = announce env s o r1 db1 in save_run r2 (put_report env o r2 db2)

unfoldable pub finish : Env → Settings → Db → Run → Outcome → Result Db
finish env s db r o = do owned db r; current ← load_run db r.id; ok (publish env s o current r db)
