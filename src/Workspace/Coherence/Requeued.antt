-- ===== src/Workspace/Coherence/Requeued.antt =====
-- What a restart leaves of a run and of its row in the outbox.
use oncall_agent.Prelude.{
  ℕ, suc, text_beq_iff, Option, none, some, List, [], ◌∷◌, Text, ◌≡◌, refl, arith, ◌==◌, text_eq,
  text_beq, if◌then◌else◌, Bool-cases, Option-cases, inl, inr, ap, lookup, sym, ◌∙◌, subst,
  lookup-insert, All-lookup,
}
use oncall_agent.Workspace.State.{
  Status, DispatchState, OutboxState, OutboxRow, Run, RunRow, Db, is_running,
}
use oncall_agent.Workspace.Tables.{Env, save_run, add_event}
use oncall_agent.Workspace.Recovery.{
  running_runs, requeued, diagnosis_id, recover_run, recover_all, recover, resend,
}
use oncall_agent.Workspace.Coherence.{Agrees}
use oncall_agent.Workspace.Coherence.Growth.{Sound}
use oncall_agent.Workspace.Coherence.Restart.{listed, running_runs-listed, recover-lookup}

-- The row of a run that waits for a new attempt.
abbrev pub waiting_at : RunRow → ℕ → ℕ → RunRow
waiting_at row attempt revision = record row {
  status = Status.queued;
  attempt = attempt;
  revision = revision;
  run = record row.run {
    status = Status.queued;
    dispatch_state = DispatchState.pending;
    current_attempt = attempt;
    revision = revision;
  };
}

abbrev pub waiting_row : RunRow → RunRow
waiting_row row = waiting_at row (suc row.attempt) (suc row.revision)

-- The row of the outbox that is due at once.
abbrev pub due_row : Env → OutboxRow → OutboxRow
due_row env o = record o { state = OutboxState.pending; next_at = env.stamp }

abbrev pub due_again : Env → Option OutboxRow → Option OutboxRow
due_again env none = none
due_again env (some o) = some (due_row env o)

diagnosis_id-eq : (a b : Text) → (diagnosis_id a == diagnosis_id b) ≡ (a == b)
unfolding diagnosis_id text_beq
diagnosis_id-eq a b = refl

due_again-twice :
    (env : Env) (o : Option OutboxRow) → due_again env (due_again env o) ≡ due_again env o
due_again-twice env none = refl
due_again-twice env (some o) = refl

resend-lookup :
    (env : Env) (a b : Text) (db : Db)
    → lookup (diagnosis_id b) (resend env (diagnosis_id a) db).outbox ≡ (
        if a == b
        then due_again env (lookup (diagnosis_id b) db.outbox)
        else lookup (diagnosis_id b) db.outbox)
unfolding resend text_beq diagnosis_id
resend-lookup env a b db = elim (Option-cases (lookup (diagnosis_id a) db.outbox)) [
  | inl e ↦ rw e (ground (arith, e, text_beq_iff a b))
  | inr (o, e) ↦ rw e (
      lookup-insert (diagnosis_id a) (diagnosis_id b) (due_row env o) db.outbox
      ∙ elim (Bool-cases (a == b)) [
        | inl same ↦ rw same (ground (arith, e, text_beq_iff a b))
        | inr other ↦ rw other refl
      ])
]

recover_run-outbox :
    (env : Env) (r : Run) (db : Db) (id : Text)
    → lookup (diagnosis_id id) (recover_run env r db).outbox ≡ (
        if r.id == id
        then due_again env (lookup (diagnosis_id id) db.outbox)
        else lookup (diagnosis_id id) db.outbox)
unfolding recover_run save_run add_event
recover_run-outbox env r db id = resend-lookup env r.id id _

recover_all-outbox :
    (env : Env) (rs : List Run) (db : Db) (id : Text)
    → lookup (diagnosis_id id) (recover_all env rs db).outbox ≡ (
        if listed id rs
        then due_again env (lookup (diagnosis_id id) db.outbox)
        else lookup (diagnosis_id id) db.outbox)
unfolding recover_all
recover_all-outbox env [] db id = refl
recover_all-outbox env (r ∷ rs) db id =
    let rest = recover_all-outbox env rs (recover_run env r db) id in
    ground (
      arith,
      rest,
      recover_run-outbox env r db id,
      due_again-twice env (lookup (diagnosis_id id) db.outbox),
    )

-- After a restart from sound tables, every run that was running is queued with its dispatch pending, at the next
-- attempt and revision, and the row of the outbox that sends it to the queue, where there is one, is
-- pending and due at once. The row of every other run, and the outbox row that sends it, are as they
-- were.
pub recover-Requeues :
    (env : Env) (db : Db) (id : Text) (row : RunRow)
    → Sound db
    → lookup id db.runs ≡ some row
    → (lookup id (recover env db).runs
        ≡ some (if is_running row.status then waiting_row row else row))
      × (lookup (diagnosis_id id) (recover env db).outbox ≡ (
          if is_running row.status
          then due_again env (lookup (diagnosis_id id) db.outbox)
          else lookup (diagnosis_id id) db.outbox))
unfolding recover requeued
recover-Requeues env db id row s e =
    let ag = All-lookup Agrees id row db.runs e s.agrees in
    (
      recover-lookup env db id row s e
          ∙ ap
              (λ n. some (
                if is_running row.status
                then waiting_at row (suc n) (suc row.run.revision)
                else row))
              (sym ag.attempt)
          ∙ ap
              (λ n.
                some
                  (if is_running row.status then waiting_at row (suc row.attempt) (suc n) else row))
              (sym ag.revision),
      subst
          (λ b. lookup (diagnosis_id id) (recover env db).outbox ≡ (
            if b
            then due_again env (lookup (diagnosis_id id) db.outbox)
            else lookup (diagnosis_id id) db.outbox))
          (running_runs-listed id row db.runs s.keyed s.agrees e)
          (recover_all-outbox env (running_runs db.runs) db id),
    )
