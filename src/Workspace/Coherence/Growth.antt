-- ===== src/Workspace/Coherence/Growth.antt =====
-- How the tables evolve under one statement and under a sequence of statements.
use oncall_agent.Prelude.{
  ℕ, ◌≤◌, true, Option, some, List, [], ◌∷◌, ◌++◌, Text, ◌≡◌, refl, arith, ◌==◌, text_eq,
  text_beq_iff, Bool-cases, Option-cases, inl, inr, ap, lookup, insert, All, keys, Distinct,
  insert-Distinct, All-insert, All-lookup, lookup-insert, beq_refl, sym, ◌∙◌,
}
use mathlib.Core.List.{append_assoc, append-nil}
use oncall_agent.Workspace.State.{Run, RunRow, Event, Db, Stage, Kind, ApiError, ok, is_terminal}
use oncall_agent.Workspace.Tables.{Env, new_event, add_event, save_run, load_run}
use oncall_agent.Workspace.Claims.{lease_run}
use oncall_agent.Workspace.Coherence.{Agrees}
use oncall_agent.Workspace.Coherence.Numbering.{IsNumbered, new_event-IsNumbered}

-- The attempt and the revision never fall, and a terminal run keeps its status, its attempt and its
-- report.
pub record Advances (row row' : RunRow) : Type 0 where
  pub attempt : row.attempt ≤ row'.attempt
  pub revision : row.revision ≤ row'.revision
  pub settled :
      is_terminal row.status ≡ true
      → (row'.status ≡ row.status)
        × (row'.attempt ≡ row.attempt)
        × (row'.run.report_text ≡ row.run.report_text)

pub Advances-refl : (row : RunRow) → Advances row row
Advances-refl row = record {
  attempt = omega arith;
  revision = omega arith;
  settled = λ t. (refl, refl, refl);
}

Advances-trans : {a b c : RunRow} → Advances a b → Advances b c → Advances a c
Advances-trans {a} {b} {c} h k = record {
  attempt = omega (arith, h.attempt, k.attempt);
  revision = omega (arith, h.revision, k.revision);
  settled = λ t.
      let (s, n, r) = h.settled t in
      let (s', n', r') = k.settled (rw s t) in (s' ∙ s, n' ∙ n, r' ∙ r);
}

-- Rows agree with their runs and have distinct ids, and events are numbered.
pub record Sound (db : Db) : Type 0 where
  pub keyed : Distinct (keys db.runs)
  pub agrees : All Agrees db.runs
  pub numbered : IsNumbered [] db.events

-- No row is lost, each advances, events are only added, and the tables stay sound.
pub record Evolves (db db' : Db) : Type 0 where
  pub sound : Sound db'
  pub grows :
      (id : Text) (row : RunRow)
      → lookup id db.runs ≡ some row
      → (row' : RunRow) × (lookup id db'.runs ≡ some row') × Advances row row'
  pub appended : (es : List Event) × (db'.events ≡ db.events ++ es)

pub Evolves-refl : (db : Db) → Sound db → Evolves db db
Evolves-refl db s = record {
  sound = s;
  grows = λ id row e. (row, e, Advances-refl row);
  appended = ([], sym (append-nil db.events));
}

pub Evolves-trans : {a b c : Db} → Evolves a b → Evolves b c → Evolves a c
Evolves-trans {a} {b} {c} h k = record {
  sound = k.sound;
  grows = λ id row e.
      let (row', e', ad) = h.grows id row e in
      let (row'', e'', ad') = k.grows id row' e' in (row'', e'', Advances-trans ad ad');
  appended =
      let (es, p) = h.appended in
      let (fs, q) = k.appended in (es ++ fs, q ∙ ap (λ z. z ++ fs) p ∙ append_assoc a.events es fs);
}

-- A statement on the other tables.
pub Evolves-other :
    (db db' : Db) → Sound db → db'.runs ≡ db.runs → db'.events ≡ db.events → Evolves db db'
Evolves-other db db' s e f = record {
  sound = record { keyed = rw e s.keyed; agrees = rw e s.agrees; numbered = rw f s.numbered };
  grows = λ id row p. (row, rw e p, Advances-refl row);
  appended = ([], f ∙ sym (append-nil db.events));
}

pub add_event-Evolves :
    (env : Env) (r : Run) (stage : Stage) (kind : Kind) (ms : Option ℕ) (ref : Option Text)
    (ae : Option ApiError) (db : Db)
    → Sound db
    → Evolves db (add_event env r stage kind ms ref ae db)
unfolding add_event
add_event-Evolves env r stage kind ms ref ae db s = record {
  sound = record {
    keyed = s.keyed;
    agrees = s.agrees;
    numbered = new_event-IsNumbered env r stage kind ms ref ae db.events s.numbered;
  };
  grows = λ id row e. (row, e, Advances-refl row);
  appended = (new_event env r stage kind ms ref ae db.events ∷ [], refl);
}

-- One row is replaced by another that agrees and advances.
replace-Evolves :
    (id : Text) (old new : RunRow) (db : Db)
    → Sound db
    → lookup id db.runs ≡ some old
    → Agrees (id, new)
    → Advances old new
    → Evolves db (record db { runs = insert id new db.runs })
replace-Evolves id old new db s e ag ad = record {
  sound = record {
    keyed = insert-Distinct id new db.runs s.keyed;
    agrees = All-insert Agrees id new db.runs ag s.agrees;
    numbered = s.numbered;
  };
  grows = λ j row f. elim (Bool-cases (id == j)) [
    | inl same ↦
        let q : row ≡ old = ground (arith, text_beq_iff id j) in
        (new, lookup-insert id j new db.runs ∙ rw same refl, rw q ad)
    | inr other ↦ (row, lookup-insert id j new db.runs ∙ rw other f, Advances-refl row)
  ];
  appended = ([], sym (append-nil db.events));
}

-- What `saveRun` makes of a row.
abbrev pub saved : Run → RunRow → RunRow
saved r row = record row {
  status = r.status;
  attempt = r.current_attempt;
  revision = r.revision;
  run = r;
}

pub save_run-Evolves :
    (r : Run) (db : Db)
    → Sound db
    → ((row : RunRow) → lookup r.id db.runs ≡ some row → Advances row (saved r row))
    → Evolves db (save_run r db)
unfolding save_run
save_run-Evolves r db s h = elim (Option-cases (lookup r.id db.runs)) [
  | inl e ↦ rw e (Evolves-refl db s)
  | inr (row, e) ↦ rw e (
      replace-Evolves r.id row (saved r row) db s e
        (record { id = refl; status = refl; attempt = refl; revision = refl }) (h row e))
]

pub lease_run-Evolves : (id lease : Text) (db : Db) → Sound db → Evolves db (lease_run id lease db)
unfolding lease_run
lease_run-Evolves id lease db s = elim (Option-cases (lookup id db.runs)) [
  | inl e ↦ rw e (Evolves-refl db s)
  | inr (row, e) ↦
      let ag = All-lookup Agrees id row db.runs e s.agrees in
      rw e (
        replace-Evolves id row (record row { lease_until = some lease }) db s e
          (record { id = ag.id; status = ag.status; attempt = ag.attempt; revision = ag.revision })
          (record {
            attempt = omega arith;
            revision = omega arith;
            settled = λ t. (refl, refl, refl);
          }))
]

-- A run that is read belongs to a row that agrees with it.
pub record Reads (db : Db) (id : Text) (r : Run) : Type 0 where
  pub row : RunRow
  pub found : lookup id db.runs ≡ some row
  pub run : row.run ≡ r
  pub id_eq : r.id ≡ id
  pub status : row.status ≡ r.status
  pub attempt : row.attempt ≡ r.current_attempt
  pub revision : row.revision ≡ r.revision

pub load_run-Reads :
    (db : Db) (id : Text) {r : Run} → Sound db → load_run db id ≡ ok r → Reads db id r
unfolding load_run
load_run-Reads db id {r} s h = elim (Option-cases (lookup id db.runs)) [
  | inl e ↦ absurd (ground arith)
  | inr (row, e) ↦
      let ag = All-lookup Agrees id row db.runs e s.agrees in
      let same : row.run ≡ r = ground arith in
      record {
        row = row;
        found = e;
        run = same;
        id_eq = rw (← same) ag.id;
        status = rw (← same) ag.status;
        attempt = rw (← same) ag.attempt;
        revision = rw (← same) ag.revision;
      }
]

-- Writing back a run that was read, at the same or a greater attempt and revision.
pub update-Evolves :
    (db : Db) (id : Text) (r r' : Run)
    → Sound db
    → Reads db id r
    → r'.id ≡ r.id
    → r.current_attempt ≤ r'.current_attempt
    → r.revision ≤ r'.revision
    → (is_terminal r.status ≡ true
        → (r'.status ≡ r.status)
          × (r'.current_attempt ≡ r.current_attempt)
          × (r'.report_text ≡ r.report_text))
    → Evolves db (save_run r' db)
update-Evolves db id r r' s f i a v t = save_run-Evolves r' db s λ row e.
    let same : row ≡ f.row =
      ground (arith, f.found, f.id_eq, i, e, ap (λ k. lookup k db.runs) (i ∙ f.id_eq)) in
    rw same (record {
      attempt = omega (arith, f.attempt, a);
      revision = omega (arith, f.revision, v);
      settled = λ d.
          let (x, y, z) = t (rw (← f.status) d) in
          (x ∙ sym f.status, y ∙ sym f.attempt, z ∙ ap (λ q. q.report_text) (sym f.run));
    })

pub Reads-of_runs :
    (db db' : Db) (id : Text) (r : Run) → db'.runs ≡ db.runs → Reads db id r → Reads db' id r
Reads-of_runs db db' id r e f = record {
  row = f.row;
  found = rw e f.found;
  run = f.run;
  id_eq = f.id_eq;
  status = f.status;
  attempt = f.attempt;
  revision = f.revision;
}

pub save_run-lookup :
    (r : Run) (db : Db) (row : RunRow)
    → lookup r.id db.runs ≡ some row
    → lookup r.id (save_run r db).runs ≡ some (saved r row)
unfolding save_run
save_run-lookup r db row e =
    rw e (lookup-insert r.id r.id (saved r row) db.runs ∙ rw (beq_refl r.id) refl)

pub lease_run-lookup :
    (id lease : Text) (db : Db) (row : RunRow)
    → lookup id db.runs ≡ some row
    → lookup id (lease_run id lease db).runs ≡ some (record row { lease_until = some lease })
unfolding lease_run
lease_run-lookup id lease db row e =
    rw e (
      lookup-insert id id (record row { lease_until = some lease }) db.runs ∙ rw (beq_refl id) refl)
