-- ===== src/Workspace/Coherence/Attempts.antt =====
-- `claim`, `event` and `finish` let the tables evolve.
use oncall_agent.Prelude.{
  ℕ, Bool, true, false, Option, none, some, Text, ◌≡◌, refl, arith, text_eq, nat_eq, nat_beq_iff,
  Bool-cases, Option-cases, inl, inr, subst, lookup, sym, ◌∙◌, if_elim,
}
use oncall_agent.Workspace.State.{
  Stage, Kind, Run, RunRow, ApiError, Db, ok, Result-cases, is_running, is_terminal,
}
use oncall_agent.Workspace.Tables.{Env, load_run, save_run, add_event, owned}
use oncall_agent.Workspace.Claims.{claim, claimed, start_attempt, drop_citations, event}
use oncall_agent.Workspace.Finish.{
  Outcome, Settings, finish, finished, announce, put_notice, put_report, publish, wants_notice,
  stage_kind,
}
use oncall_agent.Workspace.Coherence.Growth.{
  Sound, Evolves, Evolves-refl, Evolves-trans, Evolves-other, add_event-Evolves, lease_run-Evolves,
  Reads, load_run-Reads, update-Evolves, Reads-of_runs, saved, save_run-lookup, lease_run-lookup,
}

pub start_attempt-Evolves :
    (env : Env) (db : Db) (id : Text) (r : Run)
    → Sound db
    → Reads db id r
    → is_terminal r.status ≡ false
    → Evolves db (start_attempt env db r)
unfolding start_attempt claimed drop_citations
start_attempt-Evolves env db id r s f t =
    let r' = claimed env r in
    let e1 = Evolves-other db (drop_citations r.id db) s refl refl in
    let f' : Reads (drop_citations r.id db) id r = record {
      row = f.row;
      found = f.found;
      run = f.run;
      id_eq = f.id_eq;
      status = f.status;
      attempt = f.attempt;
      revision = f.revision;
    } in
    let e2 =
      update-Evolves (drop_citations r.id db) id r r' e1.sound f' refl (omega arith) (omega arith)
        (λ d. absurd (ground arith)) in
    let e3 = lease_run-Evolves r.id (env.later 95) _ e2.sound in
    let e4 = add_event-Evolves env r' Stage.queue Kind.started none none none _ e3.sound in
    let e5 = add_event-Evolves env r' Stage.queue Kind.succeeded _ none none _ e4.sound in
    Evolves-trans e1 (Evolves-trans e2 (Evolves-trans e3 (Evolves-trans e4 e5)))

pub claim-Evolves :
    (env : Env) (db : Db) (id : Text) {db' : Db} {r : Run} {b : Bool}
    → Sound db
    → claim env db id ≡ ok (db', r, b)
    → Evolves db db'
unfolding claim
claim-Evolves env db id {db'} {r} {b} s h = elim (Result-cases (load_run db id)) [
  | inr (x, e) ↦ absurd (ground arith)
  | inl (q, e) ↦ elim (Bool-cases (is_terminal q.status)) [
    | inl t ↦ let same : db ≡ db' = ground arith in rw (← same) (Evolves-refl db s)
    | inr t ↦
        let same : start_attempt env db q ≡ db' = ground arith in
        rw (← same) (start_attempt-Evolves env db id q s (load_run-Reads db id s e) t)
  ]
]

pub owned-running :
    (db : Db) (r : Run) {u : Unit {0}}
    → owned db r ≡ ok u
    → (row : RunRow) × (lookup r.id db.runs ≡ some row)
      × (row.attempt ≡ r.current_attempt)
      × (is_running row.status ≡ true)
unfolding owned
owned-running db r h = elim (Option-cases (lookup r.id db.runs)) [
  | inl e ↦ absurd (ground arith)
  | inr (row, e) ↦ (row, e, ground (arith, nat_beq_iff row.attempt r.current_attempt), ground arith)
]

pub event-Evolves :
    (env : Env) (db : Db) (r : Run) (stage : Stage) (kind : Kind) (ms : Option ℕ)
    (ref : Option Text) (ae : Option ApiError) {db' : Db}
    → Sound db
    → event env db r stage kind ms ref ae ≡ ok db'
    → Evolves db db'
unfolding event
event-Evolves env db r stage kind ms ref ae {db'} s h =
    let e : add_event env r stage kind ms ref ae db ≡ db' = ground arith in
    rw (← e) (add_event-Evolves env r stage kind ms ref ae db s)

announce-Evolves :
    (env : Env) (g : Settings) (o : Outcome) (r : Run) (db : Db)
    → Sound db
    → Evolves db (announce env g o r db).0
unfolding announce put_notice
announce-Evolves env g o r db s =
    if_elim (λ (z : Db × Run). Evolves db z.0) (wants_notice g o) _ _
      (Evolves-other db _ s refl refl)
      (add_event-Evolves env _ Stage.notification Kind.skipped none none none db s)

-- The run that is written, and the runs' table until then.
announce-fields :
    (env : Env) (g : Settings) (o : Outcome) (r : Run) (db : Db)
    → ((announce env g o r db).0.runs ≡ db.runs)
      × ((announce env g o r db).1.id ≡ r.id)
      × ((announce env g o r db).1.current_attempt ≡ r.current_attempt)
      × ((announce env g o r db).1.revision ≡ r.revision)
      × ((announce env g o r db).1.status ≡ r.status)
unfolding announce put_notice add_event
announce-fields env g o r db = ground arith

announce-report :
    (env : Env) (g : Settings) (o : Outcome) (r : Run) (db : Db)
    → (announce env g o r db).1.report_text ≡ r.report_text
unfolding announce
announce-report env g o r db = ground arith

pub publish-Evolves :
    (env : Env) (g : Settings) (o : Outcome) (current r : Run) (db : Db)
    → Sound db
    → Reads db r.id current
    → current.current_attempt ≡ r.current_attempt
    → is_terminal current.status ≡ false
    → Evolves db (publish env g o current r db)
unfolding publish finished put_report
publish-Evolves env g o current r db s f a t =
    let r1 = finished env o current r in
    let kind = stage_kind o.status in
    let db1 = add_event env r1 Stage.report kind (some o.elapsed) none o.error db in
    let (db2, r2) = announce env g o r1 db1 in
    let db3 = put_report env o r2 db2 in
    let (runs, id, attempt, revision, status) = announce-fields env g o r1 db1 in
    let e1 = add_event-Evolves env r1 Stage.report kind (some o.elapsed) none o.error db s in
    let e2 = announce-Evolves env g o r1 db1 e1.sound in
    let e3 = Evolves-other db2 db3 e2.sound refl refl in
    let same : db3.runs ≡ db.runs = runs ∙ unfold add_event in refl in
    let e4 =
      update-Evolves db3 r.id current r2 e3.sound (Reads-of_runs db db3 r.id current same f)
        (id ∙ sym f.id_eq) (omega (arith, attempt, a)) (omega (arith, revision))
        (λ d. absurd (ground arith)) in
    Evolves-trans e1 (Evolves-trans e2 (Evolves-trans e3 e4))

pub finish-Evolves :
    (env : Env) (g : Settings) (db : Db) (r : Run) (o : Outcome) {db' : Db}
    → Sound db
    → finish env g db r o ≡ ok db'
    → Evolves db db'
unfolding finish
finish-Evolves env g db r o {db'} s h = elim (Result-cases (owned db r)) [
  | inr (x, e) ↦ absurd (ground arith)
  | inl (u, e) ↦ elim (Result-cases (load_run db r.id)) [
    | inr (x, q) ↦ absurd (ground arith)
    | inl (current, q) ↦
        let f = load_run-Reads db r.id s q in
        let (row, found, attempt, running) = owned-running db r e in
        let same : row ≡ f.row = ground (arith, f.found) in
        let written : publish env g o current r db ≡ db' = ground arith in
        rw (← written) (
          publish-Evolves env g o current r db s f (ground (arith, f.attempt))
            (ground (arith, f.status)))
  ]
]

-- The row after a claim and after a result.
pub start_attempt-lookup :
    (env : Env) (db : Db) (r : Run) (row : RunRow)
    → lookup r.id db.runs ≡ some row
    → lookup r.id (start_attempt env db r).runs
      ≡ some (record (saved (claimed env r) row) { lease_until = some (env.later 95) })
unfolding start_attempt claimed drop_citations add_event
start_attempt-lookup env db r row e =
    lease_run-lookup r.id (env.later 95) _ (saved (claimed env r) row)
      (save_run-lookup (claimed env r) (drop_citations r.id db) row e)

pub publish-lookup :
    (env : Env) (g : Settings) (o : Outcome) (current r : Run) (db : Db) (row : RunRow)
    → lookup r.id db.runs ≡ some row
    → (row' : RunRow) × (lookup r.id (publish env g o current r db).runs ≡ some row')
      × (row'.status ≡ o.status)
      × (row'.attempt ≡ r.current_attempt)
      × (row'.run.report_text ≡ some o.text)
unfolding publish finished put_report
publish-lookup env g o current r db row e =
    let r1 = finished env o current r in
    let db1 =
      add_event env r1 Stage.report (stage_kind o.status) (some o.elapsed) none o.error db in
    let (db2, r2) = announce env g o r1 db1 in
    let db3 = put_report env o r2 db2 in
    let (runs, id, attempt, revision, status) = announce-fields env g o r1 db1 in
    let same : db3.runs ≡ db.runs = runs ∙ unfold add_event in refl in
    let found : lookup r2.id db3.runs ≡ some row = rw (same, id) e in
    (
      saved r2 row,
      subst (λ k. lookup k (save_run r2 db3).runs ≡ some (saved r2 row)) id
          (save_run-lookup r2 db3 row found),
      status,
      attempt,
      announce-report env g o r1 db1,
    )
