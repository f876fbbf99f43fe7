-- ===== src/Workspace/Diagnosis/Released.antt =====
-- What remains of an attempt when its processing has returned: it owns the run no more.
use oncall_agent.Prelude.{
  ℕ, true, false, not, Option, none, some, List, Text, codes, if◌then◌else◌, text_eq, nat_eq, ◌≡◌,
  refl, Bool-cases, inl, inr, if_elim,
}
use oncall_agent.Workspace.State.{
  Stage, Kind, Run, ApiError, Db, Result, ok, err, on, Result-cases, is_running,
}
use oncall_agent.Workspace.Claims.{claim, event}
use oncall_agent.Workspace.Finish.{Outcome, finish}
use oncall_agent.Workspace.Diagnosis.{Hit}
use oncall_agent.Workspace.Diagnosis.Process.{
  note, note_score, judge, outcome, conclude, diagnose, settle_failure, process_diagnosis,
  is_fenced, is_cancelled, run_claimed, judge_error, nothing_yet,
}
use oncall_agent.Workspace.Diagnosis.Runs.{Around, Flow, goes_on, ended, finish_run, failure}
use oncall_agent.Workspace.Diagnosis.Fences.{
  Released, Tells, Any, Leaves, on-Tells, then-Tells, event-err, finish-err, finish-ok,
  finish_run-Leaves,
}
use oncall_agent.Workspace.Diagnosis.Qualified.{FlowLeaves, diagnose_all-Tells}

note-Tells :
    (a : Around) (r : Run) (kind : Kind) (ms : Option ℕ) (ae : Option ApiError) (db : Db)
    → Tells Any r (note a r kind ms ae db)
unfolding note
note-Tells a r kind ms ae db =
    let db' = a.others db in
    on-Tells Any r db' (event a.env db' r Stage.judge kind ms none ae) _
      (λ e h t. event-err a.env db' r Stage.judge kind ms none ae h) (λ done h. tt)

note_score-Tells :
    (a : Around) (r : Run) (score : Option ℕ) (db : Db) → Tells Any r (note_score a r score db)
unfolding note_score
note_score-Tells a r none db =
    then-Tells Any Any r _ _ (note-Tells a r Kind.failed (some a.elapsed) (some judge_error) db)
      (λ u k. tt)
note_score-Tells a r (some score) db =
    then-Tells Any Any r _ _ (note-Tells a r Kind.succeeded (some a.elapsed) none db) (λ u k. tt)

judge-Tells :
    (a : Around) (r : Run) (text : Text) (cites : List Hit) (db : Db)
    → Tells Any r (judge a r text cites db)
unfolding judge
judge-Tells a r text cites db =
    if_elim (Tells Any r) (not a.has_judge) _ _
      (then-Tells Any Any r _ _ (note-Tells a r Kind.skipped none none db) (λ u k. tt))
      (then-Tells Any Any r _ _ (note-Tells a r Kind.started none none db)
        (λ u k. note_score-Tells a r (a.score text cites) _))

conclude-Leaves :
    (a : Around) (r : Run) (flow : Flow) (db : Db)
    → FlowLeaves a r db flow
    → Leaves r (conclude a r flow db)
unfolding conclude
conclude-Leaves a r ended db f = f
conclude-Leaves a r (goes_on p) db f =
    then-Tells Any (λ db u. Released r db) r _ _ (judge-Tells a r p.report p.cites db)
      (λ score k.
        finish_run-Leaves a r (outcome a p score) _
          (unfold outcome in if_elim (λ s. is_running s ≡ false) p.failed _ _ refl refl))

diagnose-Leaves : (a : Around) (r : Run) (db : Db) → Leaves r (diagnose a r db)
unfolding diagnose
diagnose-Leaves a r db =
    then-Tells (FlowLeaves a r) (λ db u. Released r db) r _ _
      (diagnose_all-Tells a r r.incident_ids nothing_yet db (λ id i. i) tt)
      (λ flow f. conclude-Leaves a r flow _ f)

-- Whether it succeeds or not, finishing leaves no running attempt.
finish_run-Released :
    (a : Around) (r : Run) (o : Outcome) (db : Db)
    → is_running o.status ≡ false
    → Released r (finish_run a r o db).0
unfolding finish_run on
finish_run-Released a r o db f =
    let db' = a.others db in
    elim (Result-cases (finish a.env a.settings db' r o)) [
      | inl (done, e) ↦ rw e (finish-ok a.env a.settings db' r o f e)
      | inr (x, e) ↦ rw e (finish-err a.env a.settings db' r o e)
    ]

settle_failure-Released :
    (a : Around) (r : Run) (z : Db × Result (Unit {0}))
    → Leaves r z
    → Released r (settle_failure a r z).0
unfolding settle_failure
settle_failure-Released a r (db, ok u) f = f
settle_failure-Released a r (db, err e) f = elim (Bool-cases (is_fenced e)) [
  | inl t ↦ rw t (f t)
  | inr n ↦ rw n (
      finish_run-Released a r
        (if is_cancelled e
          then failure a (codes "timeout") (codes "诊断超时或取消")
          else failure a (codes "source_unavailable") (codes "诊断依赖失败"))
        db
        (unfold failure in
          if_elim (λ (o : Outcome). is_running o.status ≡ false) (is_cancelled e) _ _ refl refl))
]

-- When the processing of a claimed run returns, with or without an error and whatever other workers have
-- committed meanwhile, the attempt owns the run no more: the run is finished, or another attempt has it.
pub process_diagnosis-Released :
    (a : Around) (id : Text) (db db1 : Db) (r : Run)
    → claim a.env (a.others db) id ≡ ok (db1, r, true)
    → Released r (process_diagnosis a id db).0
unfolding process_diagnosis run_claimed on
process_diagnosis-Released a id db db1 r h =
    rw h (settle_failure-Released a r (diagnose a r db1) (diagnose-Leaves a r db1))
