-- ===== src/Workspace/Coherence/Restart.antt =====
-- What `Recover` does to each row.
use oncall_agent.Prelude.{
  Bool, true, false, none, some, List, [], ◌∷◌, Text, ◌≡◌, refl, arith, ◌==◌, text_eq, text_beq_iff,
  if◌then◌else◌, Bool-cases, inl, inr, ap, lookup, sym, ◌∙◌, any, if_elim, subst, All, has, keys,
  Distinct, lookup-insert, beq_refl, lookup-eq-none_iff,
}
use oncall_agent.Workspace.State.{Stage, Kind, Run, RunRow, Db, is_running}
use oncall_agent.Workspace.Tables.{Env, save_run, add_event}
use oncall_agent.Workspace.Recovery.{
  running_runs, requeued, recover_run, recover_all, recover, resend, interrupted,
}
use oncall_agent.Workspace.Coherence.{Agrees}
use oncall_agent.Workspace.Coherence.Growth.{
  Sound, Evolves, Evolves-refl, Evolves-trans, Evolves-other, add_event-Evolves, Reads,
  update-Evolves, saved, Reads-of_runs,
}

-- The run stands in its row, and the row says that it is running.
record Waits (db : Db) (r : Run) : Type 0 where
  reads : Reads db r.id r
  running : is_running r.status ≡ true

-- The ids of the runs are distinct.
abbrev Apart : List Run → Type 0
Apart [] = Unit
Apart (r ∷ rs) = All (λ q. (r.id == q.id) ≡ false) rs × Apart rs

running_runs-apart :
    (id : Text) (rows : List (Text × RunRow))
    → has id (keys rows) ≡ false
    → All Agrees rows
    → All (λ q. (id == q.id) ≡ false) (running_runs rows)
unfolding running_runs
running_runs-apart id [] h a = tt
running_runs-apart id ((j, row) ∷ rows) h a =
    ground
      (arith, running_runs-apart id rows, a.0.id, text_beq_iff id row.run.id, text_beq_iff j id)

running_runs-Apart :
    (rows : List (Text × RunRow))
    → Distinct (keys rows)
    → All Agrees rows
    → Apart (running_runs rows)
unfolding running_runs
running_runs-Apart [] d a = tt
running_runs-Apart ((j, row) ∷ rows) d a =
    let ih = running_runs-Apart rows d.1 a.1 in
    if_elim Apart (is_running row.status) _ _ (rw a.0.id (running_runs-apart j rows d.0 a.1), ih) ih

running_runs-Waits :
    (db : Db) (rows : List (Text × RunRow))
    → Distinct (keys rows)
    → All Agrees rows
    → ((id : Text) (row : RunRow) → lookup id rows ≡ some row → lookup id db.runs ≡ some row)
    → All (Waits db) (running_runs rows)
unfolding running_runs
running_runs-Waits db [] d a sub = tt
running_runs-Waits db ((j, row) ∷ rows) d a sub =
    let ih =
      running_runs-Waits db rows d.1 a.1 (λ id w e.
        sub id w (ground (arith, text_beq_iff j id, (lookup-eq-none_iff j rows).1 d.0))) in
    elim (Bool-cases (is_running row.status)) [
      | inr e ↦ rw e ih
      | inl e ↦
          let reads : Reads db row.run.id row.run = record {
            row = row;
            found =
                subst (λ k. lookup k db.runs ≡ some row) (sym a.0.id)
                  (sub j row (rw (beq_refl j) refl));
            run = refl;
            id_eq = refl;
            status = a.0.status;
            attempt = a.0.attempt;
            revision = a.0.revision;
          } in
          let waits : Waits db row.run = record { reads = reads; running = rw (← a.0.status) e } in
          simp e (waits, ih)
    ]

recover_run-Evolves :
    (env : Env) (db : Db) (r : Run) → Sound db → Waits db r → Evolves db (recover_run env r db)
unfolding recover_run requeued resend
recover_run-Evolves env db r s w =
    let db1 = add_event env r Stage.queue Kind.failed none none (some interrupted) db in
    let db2 = save_run (requeued r) db1 in
    let e1 = add_event-Evolves env r Stage.queue Kind.failed none none (some interrupted) db s in
    let same : db1.runs ≡ db.runs = unfold add_event in refl in
    let e2 =
      update-Evolves db1 r.id r (requeued r) e1.sound (Reads-of_runs db db1 r.id r same w.reads)
        refl (omega arith) (omega arith) (λ d. absurd (ground (arith, w.running))) in
    let e3 = Evolves-other db2 _ e2.sound refl refl in Evolves-trans e1 (Evolves-trans e2 e3)

-- Only the run's own row changes.
recover_run-lookup :
    (env : Env) (db : Db) (r : Run) (id : Text)
    → (w : Waits db r)
    → lookup id (recover_run env r db).runs
      ≡ (if r.id == id then some (saved (requeued r) w.reads.row) else lookup id db.runs)
unfolding recover_run save_run requeued resend add_event
recover_run-lookup env db r id w =
    rw w.reads.found (lookup-insert r.id id (saved (requeued r) w.reads.row) db.runs)

Waits-keeps :
    (env : Env) (db : Db) (r : Run) (w : Waits db r) (rs : List Run)
    → All (λ q. (r.id == q.id) ≡ false) rs
    → All (Waits db) rs
    → All (Waits (recover_run env r db)) rs
Waits-keeps env db r w [] a h = tt
Waits-keeps env db r w (q ∷ rs) a h =
    let f = h.0.reads in
    let reads : Reads (recover_run env r db) q.id q = record {
      row = f.row;
      found = recover_run-lookup env db r q.id w ∙ rw a.0 f.found;
      run = f.run;
      id_eq = f.id_eq;
      status = f.status;
      attempt = f.attempt;
      revision = f.revision;
    } in
    (record { reads = reads; running = h.0.running }, Waits-keeps env db r w rs a.1 h.1)

recover_all-Evolves :
    (env : Env) (rs : List Run) (db : Db)
    → Sound db
    → Apart rs
    → All (Waits db) rs
    → Evolves db (recover_all env rs db)
unfolding recover_all
recover_all-Evolves env [] db s a h = Evolves-refl db s
recover_all-Evolves env (r ∷ rs) db s a h =
    let e = recover_run-Evolves env db r s h.0 in
    Evolves-trans e (
      recover_all-Evolves env rs (recover_run env r db) e.sound a.1
        (Waits-keeps env db r h.0 rs a.0 h.1))

-- Whether a run of the list has the id.
abbrev pub listed : Text → List Run → Bool
listed id = any (λ q. q.id == id)

apart-listed :
    (r : Run) (id : Text) (rs : List Run)
    → (r.id == id) ≡ true
    → All (λ q. (r.id == q.id) ≡ false) rs
    → listed id rs ≡ false
apart-listed r id [] e a = refl
apart-listed r id (q ∷ rs) e a = ground (
  arith,
  apart-listed r id rs e a.1,
  a.0,
  text_beq_iff r.id id,
  text_beq_iff q.id id,
  text_beq_iff r.id q.id,
)

unlisted :
    (id : Text) (rows : List (Text × RunRow))
    → has id (keys rows) ≡ false
    → All Agrees rows
    → listed id (running_runs rows) ≡ false
unfolding running_runs
unlisted id [] h a = refl
unlisted id ((j, w) ∷ rows) h a =
    ground (arith, unlisted id rows, a.0.id, text_beq_iff w.run.id id, text_beq_iff j id)

recover_all-lookup :
    (env : Env) (rs : List Run) (db : Db) (id : Text) (row : RunRow)
    → Apart rs
    → All (Waits db) rs
    → lookup id db.runs ≡ some row
    → lookup id (recover_all env rs db).runs
      ≡ some (if listed id rs then saved (requeued row.run) row else row)
unfolding recover_all
recover_all-lookup env [] db id row a h e = e
recover_all-lookup env (r ∷ rs) db id row a h e =
    let db' = recover_run env r db in
    let rest = Waits-keeps env db r h.0 rs a.0 h.1 in
    let f = h.0.reads in
    elim (Bool-cases (r.id == id)) [
      | inr other ↦ rw other (
          recover_all-lookup env rs db' id row a.1 rest
            (recover_run-lookup env db r id h.0 ∙ rw other e))
      | inl same ↦
          let new = saved (requeued r) f.row in
          let now : lookup id db'.runs ≡ some new =
            recover_run-lookup env db r id h.0 ∙ rw same refl in
          let was : f.row ≡ row = ground (arith, text_beq_iff r.id id, f.found) in
          let run : r ≡ row.run = sym f.run ∙ ap (λ x. x.run) was in
          let told : new ≡ saved (requeued row.run) row =
            ap (λ x. saved (requeued x) f.row) run ∙ ap (saved (requeued row.run)) was in
          let gone : listed id rs ≡ false = apart-listed r id rs same a.0 in
          rw same (recover_all-lookup env rs db' id new a.1 rest now ∙ rw gone (ap some told))
    ]

-- A row that is running is listed, and no other is.
pub running_runs-listed :
    (id : Text) (row : RunRow) (rows : List (Text × RunRow))
    → Distinct (keys rows)
    → All Agrees rows
    → lookup id rows ≡ some row
    → listed id (running_runs rows) ≡ is_running row.status
unfolding running_runs
running_runs-listed id row [] d a e = cc
running_runs-listed id row ((j, w) ∷ rows) d a e = ground (
  arith,
  running_runs-listed id row rows d.1 a.1,
  unlisted id rows,
  a.0.id,
  text_beq_iff j id,
  d.0,
)

-- The rows after a restart.
pub recover-lookup :
    (env : Env) (db : Db) (id : Text) (row : RunRow)
    → Sound db
    → lookup id db.runs ≡ some row
    → lookup id (recover env db).runs
      ≡ some (if is_running row.status then saved (requeued row.run) row else row)
unfolding recover
recover-lookup env db id row s e =
    recover_all-lookup env (running_runs db.runs) db id row
      (running_runs-Apart db.runs s.keyed s.agrees)
      (running_runs-Waits db db.runs s.keyed s.agrees (λ i w q. q)) e
    ∙ rw (running_runs-listed id row db.runs s.keyed s.agrees e) refl

pub recover-Evolves : (env : Env) (db : Db) → Sound db → Evolves db (recover env db)
unfolding recover
recover-Evolves env db s =
    recover_all-Evolves env (running_runs db.runs) db s
      (running_runs-Apart db.runs s.keyed s.agrees)
      (running_runs-Waits db db.runs s.keyed s.agrees (λ i w q. q))
