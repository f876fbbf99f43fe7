-- ===== src/Workspace/Diagnosis/Fences.antt =====
-- Where the error `fenced` comes from, and what `finish` leaves: tables that the attempt does not own.
use oncall_agent.Prelude.{
  ℕ, true, false, Option, some, Text, text_eq, nat_eq, lookup, ◌≡◌, refl, arith, Option-cases, inl,
  inr, ◌∙◌, ap,
}
use oncall_agent.Workspace.State.{
  Stage, Kind, Run, RunRow, ApiError, Db, Error, Result, ok, err, on, is_running,
}
use oncall_agent.Workspace.Tables.{Env, owned, load_run}
use oncall_agent.Workspace.Claims.{event}
use oncall_agent.Workspace.Finish.{Settings, Outcome, finish}
use oncall_agent.Workspace.Coherence.Attempts.{owned-running}
use oncall_agent.Workspace.History.Fencing.{finish-lookup}
use oncall_agent.Workspace.Diagnosis.Process.{is_fenced}
use oncall_agent.Workspace.Diagnosis.Runs.{Around, finish_run}

-- The run value is not that of a running attempt of the tables.
abbrev pub Released : Run → Db → Type 0
Released r db = owned db r ≡ ok tt → ⊥

-- The error `fenced` comes from tables that the attempt does not own; of a result, `Q` holds.
abbrev pub Tells : {A : Type 0} → (Db → A → Type 0) → Run → Db × Result A → Type 0
Tells Q r (db, ok a) = Q db a
Tells Q r (db, err e) = is_fenced e ≡ true → Released r db

abbrev pub Any : {A : Type 0} → Db → A → Type 0
Any db a = Unit

-- What an operation that finishes the run leaves.
abbrev pub Leaves : Run → Db × Result (Unit {0}) → Type 0
Leaves r = Tells (λ db u. Released r db) r

pub on-Tells :
    {A B : Type 0} (Q : Db → B → Type 0) (r : Run) (db : Db) (m : Result A)
    (rest : A → Db × Result B)
    → ((e : Error) → m ≡ err e → is_fenced e ≡ true → Released r db)
    → ((a : A) → m ≡ ok a → Tells Q r (rest a))
    → Tells Q r (on db m rest)
unfolding on
on-Tells Q r db (err e) rest f g = f e refl
on-Tells Q r db (ok a) rest f g = g a refl

-- The next step of an operation whose first step ends in its own tables.
pub then-Tells :
    {A B : Type 0} (P : Db → A → Type 0) (Q : Db → B → Type 0) (r : Run) (z : Db × Result A)
    (rest : A → Db × Result B)
    → Tells P r z
    → ((a : A) → P z.0 a → Tells Q r (rest a))
    → Tells Q r (on z.0 z.1 rest)
unfolding on
then-Tells P Q r (db, err e) rest f g = f
then-Tells P Q r (db, ok a) rest f g = g a f

pub owned-err : (db : Db) (r : Run) {e : Error} → owned db r ≡ err e → Released r db
owned-err db r h = λ o. absurd (ground (arith, h, o))

pub event-err :
    (env : Env) (db : Db) (r : Run) (stage : Stage) (kind : Kind) (ms : Option ℕ)
    (ref : Option Text) (ae : Option ApiError) {e : Error}
    → event env db r stage kind ms ref ae ≡ err e
    → Released r db
unfolding event
event-err env db r stage kind ms ref ae h = λ o. absurd (ground (arith, h, o))

pub load_run-fenced :
    (db : Db) (id : Text) (e : Error) → load_run db id ≡ err e → is_fenced e ≡ false
unfolding load_run
load_run-fenced db id e h = elim (Option-cases (lookup id db.runs)) [
  | inl q ↦ ground arith
  | inr (row, q) ↦ absurd (ground arith)
]

pub finish-err :
    (env : Env) (g : Settings) (db : Db) (r : Run) (o : Outcome) {e : Error}
    → finish env g db r o ≡ err e
    → Released r db
unfolding finish load_run
finish-err env g db r o h =
    λ w. let (row, found, _, _) = owned-running db r w in absurd (ground (arith, h, w, found))

pub not_running-Released :
    (db : Db) (r : Run) (row : RunRow)
    → lookup r.id db.runs ≡ some row
    → is_running row.status ≡ false
    → Released r db
not_running-Released db r row e f = λ w.
    let (row', found, _, running) = owned-running db r w in
    absurd (ground (arith, e, found, running, f))

pub finish-ok :
    (env : Env) (g : Settings) (db : Db) (r : Run) (o : Outcome) {db' : Db}
    → is_running o.status ≡ false
    → finish env g db r o ≡ ok db'
    → Released r db'
finish-ok env g db r o {db'} f h =
    let (row, found, status, _, _) = finish-lookup env g db r o h in
    not_running-Released db' r row found (ap is_running status ∙ f)

pub finish_run-Leaves :
    (a : Around) (r : Run) (o : Outcome) (db : Db)
    → is_running o.status ≡ false
    → Leaves r (finish_run a r o db)
unfolding finish_run
finish_run-Leaves a r o db f =
    let db' = a.others db in
    on-Tells (λ db u. Released r db) r db' (finish a.env a.settings db' r o) (λ done. (done, ok tt))
      (λ e h t. finish-err a.env a.settings db' r o h)
      (λ done h. finish-ok a.env a.settings db' r o f h)
