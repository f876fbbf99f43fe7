-- ===== src/Workspace/Tests.antt =====
-- The theorems of this part on small tables.
use oncall_agent.Prelude.{
  true, false, none, some, [], ◌∷◌, codes, ◌≡◌, refl, arith, text_beq, text_eq, lookup, text_lt,
}
use oncall_agent.Workspace.State.{
  OutboxRow, Status, DispatchState, EvidenceStatus, NotificationStatus, Run, RunRow, OutboxKind,
  OutboxState, Payload, Db, ok, err, no_rows,
}
use oncall_agent.Workspace.Tables.{
  Env, owned, load_run, save_run, add_event, new_event, max_sequence, stage_attempt, stable_id,
}
use oncall_agent.Workspace.Claims.{
  claim, event, start_attempt, claimed, is_leased, lease_run, drop_citations,
}
use oncall_agent.Workspace.Finish.{
  Outcome, Settings, finish, publish, finished, announce, put_report, wants_notice, put_notice,
}
use oncall_agent.Workspace.Recovery.{
  diagnosis_id, recover, requeued, recover_all, recover_run, running_runs, resend,
}
use oncall_agent.Workspace.Dispatch.{Outside, accepted}
use oncall_agent.Workspace.Coherence.Growth.{Sound, Evolves, saved}
use oncall_agent.Workspace.Coherence.Requeued.{waiting_row, recover-Requeues}
use oncall_agent.Workspace.Coherence.Deliveries.{CleansUp}
use oncall_agent.Workspace.History.{claims, finishes, restarts, here, next, Reach-Evolves}
use oncall_agent.Workspace.Notify.{Delivery}
use oncall_agent.Workspace.History.Fencing.{
  IsFenced, IsFinal, restart_fences, finish-IsFinal, claim_exclusive,
}

program : Unit {0}
unfolding text_beq text_lt owned load_run save_run add_event new_event max_sequence stage_attempt
    stable_id claim event start_attempt claimed is_leased lease_run drop_citations finish publish
    finished announce put_report wants_notice put_notice recover requeued recover_all recover_run
    running_runs resend
program = tt

abbrev env : Env
env = record { hash = λ s. s; stamp = codes "t1"; later = λ n. codes "t2"; since_ms = λ s. some 3 }

-- The clock after the lease has ended.
abbrev late : Env
late = record env { stamp = codes "t3"; later = λ n. codes "t4" }

abbrev settings : Settings
settings = record { webhook = true; judge_threshold = 7 }

-- A queue that accepts, and no version to clean up.
abbrev outside : Outside
outside = record {
  has_queue = true;
  enqueue = λ id row. accepted;
  done = λ id. false;
  clean_up = λ id row db. err no_rows;
  meanwhile = λ id db. db;
}

outside-CleansUp : CleansUp outside
outside-CleansUp id row db db' s e = absurd (ground arith)

abbrev waiting : Run
waiting = record {
  id = codes "r";
  incident_ids = codes "i" ∷ [];
  status = Status.queued;
  dispatch_state = DispatchState.pending;
  evidence_status = EvidenceStatus.not_evaluated;
  notification_status = NotificationStatus.disabled;
  judge_score = none;
  received_at = codes "t0";
  started_at = none;
  finished_at = none;
  duration_ms = none;
  current_attempt = 0;
  revision = 1;
  report_text = none;
  citation_ids = [];
  error = none;
}

abbrev empty : Db
empty = record {
  runs = [];
  events = [];
  outbox = [];
  citations = [];
  evidence = [];
  retrievals = [];
  retrieval_hits = [];
}

abbrev start : Db
start = record empty {
  runs =
      (
        codes "r",
        record {
          status = Status.queued;
          attempt = 0;
          revision = 1;
          lease_until = none;
          run = waiting;
        },
      )
      ∷ [];
  outbox =
      (
        codes "diagnosis:r",
        record {
          kind = OutboxKind.diagnosis;
          payload = Payload.for_run (codes "r");
          state = OutboxState.pending;
          attempts = 0;
          next_at = codes "t0";
          last_error = none;
        },
      )
      ∷ [];
}

start-Sound : Sound start
start-Sound = record {
  keyed = (refl, tt);
  agrees = (record { id = refl; status = refl; attempt = refl; revision = refl }, tt);
  numbered = tt;
}

-- The run's first attempt, and the tables in which it owns the run.
abbrev first : Run
first = claimed env waiting

abbrev taken : Db
taken = start_attempt env start waiting

claim-first : claim env start (codes "r") ≡ ok (taken, first, true)
unfolding program
claim-first = refl

taken-Sound : Sound taken
taken-Sound =
    (Reach-Evolves settings outside outside-CleansUp
      (next here (claims env (codes "r") first true claim-first)) start-Sound).sound

abbrev report : Outcome
report = record {
  status = Status.succeeded;
  evidence = EvidenceStatus.no_evidence;
  text = codes "done";
  score = some 5;
  error = none;
  elapsed = 9;
}

abbrev reported : Db
reported = publish env settings report first first taken

finish-first : finish env settings taken first report ≡ ok reported
unfolding program
finish-first = refl

Reach-Evolves_example : Evolves start (recover late reported)
Reach-Evolves_example =
    Reach-Evolves settings outside outside-CleansUp
      (next
        (next (next here (claims env (codes "r") first true claim-first))
          (finishes env first report finish-first))
        (restarts late refl))
      start-Sound

abbrev taken_row : RunRow
taken_row =
    record (saved first (record {
      status = Status.queued;
      attempt = 0;
      revision = 1;
      lease_until = none;
      run = waiting;
    })) { lease_until = some (codes "t2") }

abbrev resent : OutboxRow
resent = record {
  kind = OutboxKind.diagnosis;
  payload = Payload.for_run (codes "r");
  state = OutboxState.pending;
  attempts = 0;
  next_at = late.stamp;
  last_error = none;
}

recover-Requeues_example :
    (lookup (codes "r") (recover late taken).runs ≡ some (waiting_row taken_row))
    × (lookup (diagnosis_id (codes "r")) (recover late taken).outbox ≡ some resent)
unfolding program
recover-Requeues_example = recover-Requeues late taken (codes "r") taken_row taken-Sound refl

restart_fences_example : IsFenced (recover late taken) first
unfolding program
restart_fences_example =
    restart_fences settings outside outside-CleansUp late taken (recover late taken) first
      taken-Sound refl here

finish-IsFinal_example :
    IsFinal settings outside outside-CleansUp first report (recover late reported)
finish-IsFinal_example =
    finish-IsFinal settings outside outside-CleansUp env taken reported (recover late reported)
      first report taken-Sound finish-first refl (next here (restarts late refl))

abbrev second_run : Run
second_run = claimed late first

abbrev taken_again : Db
taken_again = start_attempt late taken first

claim-second : claim late taken (codes "r") ≡ ok (taken_again, second_run, true)
unfolding program
claim-second = refl

claim_exclusive_example :
    (owned taken first ≡ ok tt)
    × (owned taken_again second_run ≡ ok tt)
    × IsFenced taken_again first
claim_exclusive_example =
    claim_exclusive settings outside outside-CleansUp env late start taken taken taken_again
      (codes "r") first second_run start-Sound claim-first here claim-second

-- A delivery that fails for the last time, while a restart comes between its transactions.
abbrev busy : Delivery
busy = record {
  delivered = false;
  elapsed = 3;
  retries = some (2, 2);
  before_start = λ db. db;
  meanwhile = λ db. recover late db;
}
