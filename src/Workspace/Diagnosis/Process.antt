-- ===== src/Workspace/Diagnosis/Process.antt =====
-- `judge` of service.go, the end of `diagnose`, and `ProcessAlertDiagnosis`, which claims a run, diagnoses
-- it and finishes it when that fails. A panic is not modelled.
use oncall_agent.Prelude.{
  ℕ, Bool, true, false, not, Option, none, some, List, [], Text, codes, if◌then◌else◌, text_eq,
}
use oncall_agent.Workspace.State.{
  Status, EvidenceStatus, Stage, Kind, Run, ApiError, Db, Error, Result, ok, err, on, fenced,
  cancelled_context,
}
use oncall_agent.Workspace.Claims.{claim, event}
use oncall_agent.Workspace.Finish.{Outcome}
use oncall_agent.Workspace.Diagnosis.{Hit, source_error}
use oncall_agent.Workspace.Diagnosis.Runs.{
  Around, Progress, Flow, failure, finish_run, diagnose_all, goes_on, ended,
}

-- The event of a stage, after what others have committed.
unfoldable pub note : Around → Run → Kind → Option ℕ → Option ApiError → Db → Db × Result (Unit {0})
unfolding event on
note a r kind ms ae db =
    let db' = a.others db in
    on db' (event a.env db' r Stage.judge kind ms none ae) λ done. (done, ok tt)

unfoldable pub judge_error : ApiError
judge_error = record {
  code = codes "judge_unavailable";
  message = codes "评分服务不可用，未评分";
  retryable = true;
}

unfoldable pub note_score : Around → Run → Option ℕ → Db → Db × Result (Option ℕ)
unfolding note judge_error on
note_score a r none db =
    let done = note a r Kind.failed (some a.elapsed) (some judge_error) db in
    on done.0 done.1 λ u. (done.0, ok none)
note_score a r (some score) db =
    let done = note a r Kind.succeeded (some a.elapsed) none db in
    on done.0 done.1 λ u. (done.0, ok (some score))

unfoldable pub judge : Around → Run → Text → List Hit → Db → Db × Result (Option ℕ)
unfolding note note_score on
judge a r text cites db =
    let skipped = note a r Kind.skipped none none db in
    let started = note a r Kind.started none none db in
    let silent = on skipped.0 skipped.1 λ u. (skipped.0, ok none) in
    let scored = on started.0 started.1 λ u. note_score a r (a.score text cites) started.0 in
    if not a.has_judge then silent else scored

-- What a diagnosis that went through all incidents finishes with.
unfoldable pub outcome : Around → Progress → Option ℕ → Outcome
unfolding source_error
outcome a p score = record {
  status = if p.failed then Status.failed else Status.succeeded;
  evidence = if p.failed then EvidenceStatus.source_unavailable else p.evidence;
  text = p.report;
  score = score;
  error = if p.failed then some (source_error (codes "部分检索源不可用")) else none;
  elapsed = a.elapsed;
}

unfoldable pub conclude : Around → Run → Flow → Db → Db × Result (Unit {0})
unfolding judge finish_run outcome on
conclude a r ended db = (db, ok tt)
conclude a r (goes_on p) db =
    let judged = judge a r p.report p.cites db in
    on judged.0 judged.1 λ score. finish_run a r (outcome a p score) judged.0

abbrev pub nothing_yet : Progress
nothing_yet = record {
  report = [];
  cites = [];
  evidence = EvidenceStatus.no_evidence;
  failed = false;
}

unfoldable pub diagnose : Around → Run → Db → Db × Result (Unit {0})
unfolding diagnose_all conclude on
diagnose a r db =
    let walked = diagnose_all a r r.incident_ids nothing_yet db in
    on walked.0 walked.1 λ flow. conclude a r flow walked.0

abbrev pub is_fenced : Error → Bool
is_fenced fenced = true
is_fenced _ = false

abbrev pub is_cancelled : Error → Bool
is_cancelled cancelled_context = true
is_cancelled _ = false

-- The deferred part: a diagnosis that failed, other than by losing its run, finishes the run.
unfoldable pub settle_failure : Around → Run → Db × Result (Unit {0}) → Db × Result (Unit {0})
unfolding finish_run failure
settle_failure a r (db, ok u) = (db, ok u)
settle_failure a r (db, err e) =
    let told =
      if is_cancelled e
      then failure a (codes "timeout") (codes "诊断超时或取消")
      else failure a (codes "source_unavailable") (codes "诊断依赖失败") in
    if is_fenced e then (db, err e) else ((finish_run a r told db).0, err e)

unfoldable pub run_claimed : Around → Db → Run → Bool → Db × Result (Unit {0})
unfolding diagnose settle_failure
run_claimed a db r false = (db, ok tt)
run_claimed a db r true = settle_failure a r (diagnose a r db)

unfoldable pub process_diagnosis : Around → Text → Db → Db × Result (Unit {0})
unfolding claim run_claimed on
process_diagnosis a id db =
    let db' = a.others db in
    on db' (claim a.env db' id) λ claimed. run_claimed a claimed.0 claimed.1 claimed.2
