-- ===== src/Workspace/History/Fencing.antt =====
-- Which attempt may write: the one that claimed the run last, until it has finished.
use oncall_agent.Prelude.{
  ℕ, suc, ◌<◌, true, false, ◌&&◌, Option, some, Text, ◌≡◌, refl, arith, ◌==◌, nat_eq, nat_beq_iff,
  text_eq, inl, inr, ap, lookup, sym, ◌∙◌, All-lookup,
}
use oncall_agent.Workspace.State.{
  Stage, Kind, Run, RunRow, ApiError, Db, ok, err, fenced, Result-cases, is_running, is_terminal,
}
use oncall_agent.Workspace.Tables.{Env, owned, load_run}
use oncall_agent.Workspace.Claims.{claim, event, claimed, start_attempt}
use oncall_agent.Workspace.Finish.{Settings, Outcome, finish, publish}
use oncall_agent.Workspace.Recovery.{recover, requeued}
use oncall_agent.Workspace.Dispatch.{Outside}
use oncall_agent.Workspace.Coherence.{Agrees}
use oncall_agent.Workspace.Coherence.Growth.{Sound, load_run-Reads, saved}
use oncall_agent.Workspace.Coherence.Attempts.{
  owned-running, claim-Evolves, finish-Evolves, publish-lookup, start_attempt-lookup,
}
use oncall_agent.Workspace.Coherence.Restart.{recover-lookup, recover-Evolves}
use oncall_agent.Workspace.Coherence.Deliveries.{CleansUp}
use oncall_agent.Workspace.History.{Reach, Reach-Evolves}

-- Neither an event nor a result of the run value is accepted.
pub record IsFenced (db : Db) (r : Run) : Type 0 where
  pub event :
      (env : Env) (stage : Stage) (kind : Kind) (ms : Option ℕ) (ref : Option Text)
      (ae : Option ApiError)
      → event env db r stage kind ms ref ae ≡ err fenced
  pub finish : (env : Env) (g : Settings) (o : Outcome) → finish env g db r o ≡ err fenced

owned-fenced : (db : Db) (r : Run) → owned db r ≡ err fenced → IsFenced db r
unfolding event finish
owned-fenced db r e = record {
  event = λ env stage kind ms ref ae. rw e refl;
  finish = λ env g o. rw e refl;
}

-- A row with a greater attempt, or that is not running, fences the run value.
owned-of_row :
    (db : Db) (r : Run) (row : RunRow)
    → lookup r.id db.runs ≡ some row
    → (row.attempt == r.current_attempt && is_running row.status) ≡ false
    → owned db r ≡ err fenced
unfolding owned
owned-of_row db r row e f = rw (e, f) refl

pub finish-lookup :
    (env : Env) (g : Settings) (db : Db) (r : Run) (o : Outcome) {db' : Db}
    → finish env g db r o ≡ ok db'
    → (row' : RunRow) × (lookup r.id db'.runs ≡ some row')
      × (row'.status ≡ o.status)
      × (row'.attempt ≡ r.current_attempt)
      × (row'.run.report_text ≡ some o.text)
unfolding finish
finish-lookup env g db r o {db'} h = elim (Result-cases (owned db r)) [
  | inr (x, e) ↦ absurd (ground arith)
  | inl (u, e) ↦ elim (Result-cases (load_run db r.id)) [
    | inr (x, q) ↦ absurd (ground arith)
    | inl (current, q) ↦
        let (row, found, _, _) = owned-running db r e in
        let written : publish env g o current r db ≡ db' = ground arith in
        rw (← written) (publish-lookup env g o current r db row found)
  ]
]

-- What a claim that succeeds has found and written.
record Claims (db db' : Db) (id : Text) (r : Run) : Type 0 where
  before : RunRow
  was : lookup id db.runs ≡ some before
  after : RunRow
  found : lookup r.id db'.runs ≡ some after
  id_eq : r.id ≡ id
  attempt : after.attempt ≡ r.current_attempt
  more : after.attempt ≡ suc before.attempt
  owns : owned db' r ≡ ok tt

owned-ok :
    (db : Db) (r : Run) (row : RunRow)
    → lookup r.id db.runs ≡ some row
    → row.attempt ≡ r.current_attempt
    → is_running row.status ≡ true
    → owned db r ≡ ok tt
unfolding owned
owned-ok db r row e a t =
    let f : (row.attempt == r.current_attempt && is_running row.status) ≡ true =
      ground (arith, nat_beq_iff row.attempt r.current_attempt) in
    rw (e, f) refl

claim-Claims :
    (env : Env) (db : Db) (id : Text) {db' : Db} {r : Run}
    → Sound db
    → claim env db id ≡ ok (db', r, true)
    → Claims db db' id r
unfolding claim claimed
claim-Claims env db id {db'} {r} s h = elim (Result-cases (load_run db id)) [
  | inr (y, e) ↦ absurd (ground arith)
  | inl (q, e) ↦
      let f = load_run-Reads db id s e in
      let written : start_attempt env db q ≡ db' = ground arith in
      let made : claimed env q ≡ r = ground arith in
      let after = record (saved (claimed env q) f.row) { lease_until = some (env.later 95) } in
      let found : lookup q.id (start_attempt env db q).runs ≡ some after =
        start_attempt-lookup env db q f.row (rw f.id_eq f.found) in
      rw (← written, ← made)
        (record {
          before = f.row;
          was = f.found;
          after = after;
          found = found;
          id_eq = f.id_eq;
          attempt = refl;
          more = omega (arith, f.attempt);
          owns = owned-ok (start_attempt env db q) (claimed env q) after found refl refl;
        })
]

module _ (g : Settings) (x : Outside) (c : CleansUp x) where
  -- Once a row's attempt is beyond the run value's, it stays so.
  outdated-IsFenced :
      (a b : Db) (r : Run) (row : RunRow)
      → Sound a
      → Reach g x a b
      → lookup r.id a.runs ≡ some row
      → r.current_attempt < row.attempt
      → IsFenced b r
  outdated-IsFenced a b r row s h e l =
      let (row', e', ad) = (Reach-Evolves g x c h s).grows r.id row e in
      owned-fenced b r (owned-of_row b r row' e' (ground (arith, ad.attempt)))

  -- From sound tables, a restart fences every attempt that owned its run before it: after every history
  -- of transactions that follows, its events and its result are refused. `dispatchCleanup` is relied on to let
  -- the tables evolve.
  pub restart_fences :
      (env : Env) (a b : Db) (r : Run) {u : Unit {0}}
      → Sound a
      → owned a r ≡ ok u
      → Reach g x (recover env a) b
      → IsFenced b r
  unfolding requeued
  restart_fences env a b r s o h =
      let (row, e, attempt, running) = owned-running a r o in
      let ag = All-lookup Agrees r.id row a.runs e s.agrees in
      let f : lookup r.id (recover env a).runs ≡ some (saved (requeued row.run) row) =
        recover-lookup env a r.id row s e ∙ rw running refl in
      outdated-IsFenced (recover env a) b r (saved (requeued row.run) row)
        (recover-Evolves env a s).sound h f (omega (arith, ag.attempt, attempt))

  -- What every later state keeps of a finished run.
  pub record IsFinal (r : Run) (o : Outcome) (b : Db) : Type 0 where
    pub row : RunRow
    pub found : lookup r.id b.runs ≡ some row
    pub status : row.status ≡ o.status
    pub report : row.run.report_text ≡ some o.text
    pub fenced : IsFenced b r
    pub unclaimed : (env : Env) → claim env b r.id ≡ ok (b, row.run, false)

  claim-terminal :
      (env : Env) (b : Db) (id : Text) (row : RunRow)
      → lookup id b.runs ≡ some row
      → is_terminal row.run.status ≡ true
      → claim env b id ≡ ok (b, row.run, false)
  unfolding claim load_run
  claim-terminal env b id row e t = rw (e, t) refl

  -- From sound tables, a result with a terminal status that is accepted is final: after every
  -- history of transactions that follows, the run has that status and that report, an event and a
  -- result of the attempt are refused, and no claim starts the run again. `dispatchCleanup` is relied on to let the tables evolve.
  pub finish-IsFinal :
      (env : Env) (a a' b : Db) (r : Run) (o : Outcome)
      → Sound a
      → finish env g a r o ≡ ok a'
      → is_terminal o.status ≡ true
      → Reach g x a' b
      → IsFinal r o b
  finish-IsFinal env a a' b r o s e t h =
      let (row, found, status, attempt, report) = finish-lookup env g a r o e in
      let s' = (finish-Evolves env g a r o s e).sound in
      let ev = Reach-Evolves g x c h s' in
      let (row', found', ad) = ev.grows r.id row found in
      let (keeps, _, text) = ad.settled (rw status t) in
      let ag = All-lookup Agrees r.id row' b.runs found' ev.sound.agrees in
      let final : is_terminal row'.status ≡ true = rw (keeps, status) t in
      record {
        row = row';
        found = found';
        status = keeps ∙ status;
        report = text ∙ report;
        fenced = owned-fenced b r (owned-of_row b r row' found' (ground arith));
        unclaimed = λ env'. claim-terminal env' b r.id row' found' (rw (← ag.status) final);
      }

  -- From sound tables, a claim that succeeds owns the run, and a later claim of the run that succeeds,
  -- after any history of transactions in between, owns it then and fences the earlier one. `dispatchCleanup` is
  -- relied on to let the tables evolve.
  pub claim_exclusive :
      (env env' : Env) (a a' b b' : Db) (id : Text) (r r' : Run)
      → Sound a
      → claim env a id ≡ ok (a', r, true)
      → Reach g x a' b
      → claim env' b id ≡ ok (b', r', true)
      → (owned a' r ≡ ok tt) × (owned b' r' ≡ ok tt) × IsFenced b' r
  claim_exclusive env env' a a' b b' id r r' s e h e' =
      let k = claim-Claims env a id s e in
      let s' = (claim-Evolves env a id s e).sound in
      let ev = Reach-Evolves g x c h s' in
      let (row, found, ad) = ev.grows r.id k.after k.found in
      let k' = claim-Claims env' b id ev.sound e' in
      let same : r.id ≡ r'.id = k.id_eq ∙ sym k'.id_eq in
      let before : k'.before ≡ row =
        ground (arith, found, k'.was, ap (λ i. lookup i b.runs) k.id_eq) in
      (
        k.owns,
        k'.owns,
        owned-fenced b' r (
            owned-of_row b' r k'.after (rw same k'.found)
              (ground (arith, k.attempt, k'.attempt, k'.more, ad.attempt, before))),
      )
