-- ===== src/Workspace/History.antt =====
-- Histories of the tables of runs and events: the transactions that workers, requests, the dispatcher,
-- notifications and restarts commit, in any order and by any number of workers. A step of the history
-- is one transaction; what a transaction takes from an earlier reading may be out of date.
pub mod Fencing
pub mod Parts
use oncall_agent.Prelude.{ℕ, Bool, Option, none, List, Text, ◌≡◌, refl, subst, sym}
use oncall_agent.Workspace.State.{Run, Db, Stage, Kind, ApiError, OutboxRow, ok}
use oncall_agent.Workspace.Tables.{Env, load_run}
use oncall_agent.Workspace.Claims.{claim, event}
use oncall_agent.Workspace.Finish.{Settings, Outcome, finish}
use oncall_agent.Workspace.Recovery.{recover}
use oncall_agent.Workspace.Notify.{Delivery, start_notice, settle}
use oncall_agent.Workspace.Dispatch.{Outside, dispatch_row}
use oncall_agent.Workspace.Documents.{Chunk}
use oncall_agent.Workspace.Diagnosis.{record_retrieval, record_hit}
use oncall_agent.Workspace.Admission.{Incident, Store, Formats, new_run, insert_run}
use oncall_agent.Workspace.Coherence.Growth.{
  Sound, Evolves, Evolves-refl, Evolves-trans, Evolves-other, add_event-Evolves,
}
use oncall_agent.Workspace.Coherence.Attempts.{claim-Evolves, event-Evolves, finish-Evolves}
use oncall_agent.Workspace.Coherence.Restart.{recover-Evolves}
use oncall_agent.Workspace.Coherence.Deliveries.{CleansUp, settle-Evolves, dispatch_row-Evolves}
use oncall_agent.Workspace.Coherence.Additions.{
  record_retrieval-Evolves, record_hit-Evolves, insert_run-Evolves,
}

pub data Step (g : Settings) (x : Outside) (db : Db) : Db → Type 0 where
  claims :
      {db' : Db} (env : Env) (id : Text) (r : Run) (b : Bool)
      → claim env db id ≡ ok (db', r, b)
      → Step g x db db'
  records :
      {db' : Db} (env : Env) (r : Run) (stage : Stage) (kind : Kind) (ms : Option ℕ)
      (ref : Option Text) (ae : Option ApiError)
      → event env db r stage kind ms ref ae ≡ ok db'
      → Step g x db db'
  retrieves :
      {db' : Db} (env : Env) (space : Text) (r : Run) (id : Text) (inc : Incident) (found : Bool)
      (ms : ℕ)
      → record_retrieval env space r id inc found ms db ≡ ok db'
      → Step g x db db'
  hits :
      {db' : Db} (env : Env) (r : Run) (id : Text) (rank : ℕ) (c : Chunk) (eligible : Bool)
      → record_hit env r id rank c eligible db ≡ ok db'
      → Step g x db db'
  finishes :
      {db' : Db} (env : Env) (r : Run) (o : Outcome)
      → finish env g db r o ≡ ok db'
      → Step g x db db'
  restarts : {db' : Db} (env : Env) → recover env db ≡ db' → Step g x db db'
  -- The only insertion of a run, by an alert or by a manual request.
  inserts :
      {db' : Db} (f : Formats) (business : Text) (ids : List Text) (s s' : Store)
      → s.db ≡ db
      → s'.db ≡ db'
      → insert_run f (new_run f business ids) business s ≡ ok s'
      → Step g x db db'
  -- The two transactions of a notification, the first with a run that was read at any time.
  announces : {db' : Db} (env : Env) (r : Run) → start_notice env r db ≡ db' → Step g x db db'
  notifies :
      {db' : Db} (env : Env) (d : Delivery) (id : Text)
      → (settle env d id db (load_run db id)).0 ≡ db'
      → Step g x db db'
  -- One row of the outbox, as it was read at any time.
  dispatches :
      {db' : Db} (env : Env) (id : Text) (row : OutboxRow)
      → dispatch_row env x id row db ≡ ok db'
      → Step g x db db'
  -- A transaction on other tables, such as those of an upload.
  elsewhere : {db' : Db} → db'.runs ≡ db.runs → db'.events ≡ db.events → Step g x db db'

pub data Reach (g : Settings) (x : Outside) (db : Db) : Db → Type 0 where
  here : Reach g x db db
  next : {a b : Db} → Reach g x db a → Step g x a b → Reach g x db b

module _ (g : Settings) (x : Outside) (c : CleansUp x) where
  Step-Evolves : {a b : Db} → Step g x a b → Sound a → Evolves a b
  unfolding start_notice
  Step-Evolves {a} (claims env id r b e) s = claim-Evolves env a id s e
  Step-Evolves {a} (records env r stage kind ms ref ae e) s =
      event-Evolves env a r stage kind ms ref ae s e
  Step-Evolves {a} (finishes env r o e) s = finish-Evolves env g a r o s e
  Step-Evolves {a} (restarts env e) s = rw (← e) (recover-Evolves env a s)
  Step-Evolves {a} (retrieves env space r id inc found ms e) s =
      record_retrieval-Evolves env space r id inc found ms a s e
  Step-Evolves {a} (hits env r id rank k eligible e) s =
      record_hit-Evolves env r id rank k eligible a s e
  Step-Evolves {a} {b} (inserts f business ids t t' p q e) s =
      subst (λ z. Evolves z b) p
        (subst (Evolves t.db) q (insert_run-Evolves f business ids t t' (subst Sound (sym p) s) e))
  Step-Evolves {a} (announces env r e) s =
      rw (← e) (add_event-Evolves env r Stage.notification Kind.started none none none a s)
  Step-Evolves {a} (notifies env d id e) s = rw (← e) (settle-Evolves env d a id s)
  Step-Evolves {a} (dispatches env id row e) s = dispatch_row-Evolves env x id row a c s e
  Step-Evolves {a} {b} (elsewhere e f) s = Evolves-other a b s e f

  -- In every history of these transactions that starts with sound tables they stay sound: the columns
  -- agree with the runs, and the events of each run are numbered without gaps. No run is lost,
  -- attempts and revisions never fall, events are only appended, and a run that has succeeded, failed or
  -- been cancelled keeps its status, its attempt and its report. `dispatchCleanup` is relied on to
  -- let the tables evolve so.
  pub Reach-Evolves : {a b : Db} → Reach g x a b → Sound a → Evolves a b
  Reach-Evolves {a} here s = Evolves-refl a s
  Reach-Evolves (next h st) s =
      let e = Reach-Evolves h s in Evolves-trans e (Step-Evolves st e.sound)
