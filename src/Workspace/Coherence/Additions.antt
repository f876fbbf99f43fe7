-- ===== src/Workspace/Coherence/Additions.antt =====
-- The transactions of `diagnose` and `insertRun` let the tables evolve.
use oncall_agent.Prelude.{
  ℕ, Bool, none, some, List, [], ◌++◌, Text, codes, decimal, ◌≡◌, refl, arith, ◌==◌, text_eq,
  text_beq_iff, inl, inr, subst, if_elim, if◌then◌else◌, Bool-cases, lookup, insert,
  insert-Distinct, All-insert, lookup-insert, sym, ◌∙◌,
}
use mathlib.Core.List.{append-nil}
use oncall_agent.Workspace.State.{CitationRow, Stage, Kind, Run, RunRow, Db, Result, ok, err, ◌>>=◌}
use oncall_agent.Workspace.Tables.{stable_id, Env, load_run, save_run, add_event}
use oncall_agent.Workspace.Admission.{Incident, Store, Formats, new_run, insert_run}
use oncall_agent.Workspace.Admission.Inserted.{Inserted, first_row, insert_run-Inserted}
use oncall_agent.Workspace.Documents.{Chunk}
use oncall_agent.Workspace.Diagnosis.{
  record_retrieval, source_error, retrieval_evidence, retrieval_id, put_hit, put_if_new, cite_chunk,
  cited_run, record_hit, chunk_evidence, put_citation,
}
use oncall_agent.Workspace.Coherence.{Agrees}
use oncall_agent.Workspace.Coherence.Growth.{
  Sound, Evolves, Evolves-refl, Evolves-trans, Evolves-other, add_event-Evolves, Advances-refl,
  load_run-Reads, update-Evolves,
}

-- What holds of the tables that a call gives, if it gives any.
abbrev Leads : Db → Result Db → Type 0
Leads db (err e) = Unit
Leads db (ok db') = Evolves db db'

Leads-ok : (db : Db) (m : Result Db) {db' : Db} → Leads db m → m ≡ ok db' → Evolves db db'
Leads-ok db m h e = subst (Leads db) e h

then-Leads {ℓ} :
    {A : Type ℓ} (db : Db) (m : Result A) (rest : A → Result Db)
    (h : (a : A) → m ≡ ok a → Leads db (rest a))
    → Leads db (m >>= rest)
then-Leads db (err e) rest h = tt
then-Leads db (ok a) rest h = h a refl

pub record_retrieval-Evolves :
    (env : Env) (space : Text) (r : Run) (id : Text) (inc : Incident) (found : Bool) (ms : ℕ)
    (db : Db) {db' : Db}
    → Sound db
    → record_retrieval env space r id inc found ms db ≡ ok db'
    → Evolves db db'
unfolding record_retrieval
record_retrieval-Evolves env space r id inc found ms db {db'} s h =
    let ret = retrieval_id env r id in
    let ev = retrieval_evidence env space r id inc found in
    let kind = if found then Kind.succeeded else Kind.failed in
    let ae = if found then none else some (source_error (codes "知识检索源不可用")) in
    let db1 : Db = record db {
      retrievals = insert ret ev db.retrievals;
      evidence = insert ret ev db.evidence;
    } in
    let other : Evolves db db1 = Evolves-other db db1 s refl refl in
    let same : add_event env r Stage.retrieval kind (some ms) (some ret) ae db1 ≡ db' =
      ground arith in
    rw (← same) (
      Evolves-trans other
        (add_event-Evolves env r Stage.retrieval kind (some ms) (some ret) ae db1 other.sound))

put_hit-Evolves :
    (ret chunk : Text) (rank : ℕ) (eligible : Bool) (db : Db)
    → Sound db
    → Evolves db (put_hit ret chunk rank eligible db)
unfolding put_hit
put_hit-Evolves ret chunk rank eligible db s =
    if_elim (Evolves db) _ _ _ (Evolves-refl db s) (Evolves-other db _ s refl refl)

cite_chunk-Leads :
    (env : Env) (r : Run) (id ret : Text) (rank : ℕ) (c : Chunk) (db : Db)
    → Sound db
    → Leads db (cite_chunk env r id ret rank c db)
unfolding cite_chunk cited_run
cite_chunk-Leads env r id ret rank c db s =
    let key =
      stable_id env (codes "chunk_")
        (r.id ++ codes ":" ++ decimal r.current_attempt ++ codes ":" ++ id ++ codes ":" ++ c.id) in
    let row : CitationRow = record {
      run_id = r.id;
      incident_id = id;
      retrieval_id = ret;
      chunk_id = c.id;
      evidence_id = key;
    } in
    let db' : Db = record db {
      evidence =
          put_if_new key (chunk_evidence env r id ret rank c) (lookup key db.evidence) db.evidence;
      citations = put_citation row db.citations;
    } in
    let other = Evolves-other db db' s refl refl in
    then-Leads db (load_run db' r.id) (λ current. ok (save_run (cited_run key current) db'))
      λ current e. Evolves-trans other (
        update-Evolves db' r.id current (cited_run key current) other.sound
          (load_run-Reads db' r.id other.sound e) refl (omega arith) (omega arith)
          (λ d. (refl, refl, refl)))

pub record_hit-Evolves :
    (env : Env) (r : Run) (id : Text) (rank : ℕ) (c : Chunk) (eligible : Bool) (db : Db) {db' : Db}
    → Sound db
    → record_hit env r id rank c eligible db ≡ ok db'
    → Evolves db db'
unfolding record_hit
record_hit-Evolves env r id rank c eligible db {db'} s h =
    let ret = retrieval_id env r id in
    let seen = put_hit ret c.id rank eligible db in
    let first = put_hit-Evolves ret c.id rank eligible db s in
    elim (Bool-cases eligible) [
      | inl e ↦
          let cited : cite_chunk env r id ret rank c seen ≡ ok db' = ground arith in
          Evolves-trans first (
            Leads-ok seen (cite_chunk env r id ret rank c seen)
              (cite_chunk-Leads env r id ret rank c seen first.sound) cited)
      | inr e ↦ let same : seen ≡ db' = ground arith in rw (← same) first
    ]

fresh-Evolves :
    (id : Text) (row : RunRow) (db : Db)
    → Sound db
    → lookup id db.runs ≡ none
    → Agrees (id, row)
    → Evolves db (record db { runs = insert id row db.runs })
fresh-Evolves id row db s e ag = record {
  sound = record {
    keyed = insert-Distinct id row db.runs s.keyed;
    agrees = All-insert Agrees id row db.runs ag s.agrees;
    numbered = s.numbered;
  };
  grows = λ j old f. (
    old,
    lookup-insert id j row db.runs ∙ elim (Bool-cases (id == j)) [
      | inl same ↦ absurd (ground (arith, text_beq_iff id j))
      | inr other ↦ rw other f
    ],
    Advances-refl old,
  );
  appended = ([], sym (append-nil db.events));
}

-- A run that is new, at the first attempt and revision.
Inserted-Evolves :
    (f : Formats) (business : Text) (ids : List Text) (s s' : Store)
    → Sound s.db
    → Inserted f (new_run f business ids) business s s'
    → Evolves s.db s'.db
unfolding new_run add_event
Inserted-Evolves f business ids s s' sound h =
    let r = new_run f business ids in
    let a : Db = record s.db { runs = insert r.id (first_row r) s.db.runs } in
    let e1 : Evolves s.db a =
      fresh-Evolves r.id (first_row r) s.db sound h.fresh
        (record { id = refl; status = refl; attempt = refl; revision = refl }) in
    let b = add_event f.env r Stage.receive Kind.succeeded none none none a in
    let e2 = add_event-Evolves f.env r Stage.receive Kind.succeeded none none none a e1.sound in
    let c = add_event f.env r Stage.queue Kind.succeeded none none none b in
    let e3 = add_event-Evolves f.env r Stage.queue Kind.succeeded none none none b e2.sound in
    let e4 : Evolves c s'.db = Evolves-other c s'.db e3.sound h.runs h.events in
    Evolves-trans e1 (Evolves-trans e2 (Evolves-trans e3 e4))

pub insert_run-Evolves :
    (f : Formats) (business : Text) (ids : List Text) (s s' : Store)
    → Sound s.db
    → insert_run f (new_run f business ids) business s ≡ ok s'
    → Evolves s.db s'.db
insert_run-Evolves f business ids s s' sound e =
    Inserted-Evolves f business ids s s' sound
      (insert_run-Inserted f (new_run f business ids) business s s' e)
