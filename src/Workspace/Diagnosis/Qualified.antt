-- ===== src/Workspace/Diagnosis/Qualified.antt =====
-- The loops over the incidents and their hits: what they cite, and what an early end leaves.
use oncall_agent.Prelude.{
  ℕ, suc, Bool, true, false, Option, none, some, List, [], ◌∷◌, Text, codes, All, All-append, In,
  has, text_beq_iff, ltb, if◌then◌else◌, ◌==◌, text_eq, nat_eq, lookup, ◌≡◌, refl, arith,
  Bool-cases, Option-cases, inl, inr, ◌∙◌, sym, ap, subst, if_elim,
}
use oncall_agent.Workspace.State.{Stage, Kind, Run, RunRow, Db, Error, Result, ok, err}
use oncall_agent.Workspace.Tables.{Env, load_run}
use oncall_agent.Workspace.Claims.{event}
use oncall_agent.Workspace.Coherence.Attempts.{owned-running}
use oncall_agent.Workspace.Admission.{Incident}
use oncall_agent.Workspace.Documents.{Chunk, Shelf, load_document}
use oncall_agent.Workspace.Diagnosis.{
  Hit, retrieval_id, put_hit, qualifies, record_retrieval, record_hit, cite_chunk,
}
use oncall_agent.Workspace.Diagnosis.Process.{is_fenced, nothing_yet}
use oncall_agent.Workspace.Diagnosis.Runs.{
  Around, close_incident, Progress, Flow, goes_on, ended, finish_run, failure, walk_hits,
  record_found, diagnose_incident, diagnose_all, add_cite, is_found, hits_of, row_incident,
  after_incident, ended_by,
}
use oncall_agent.Workspace.Diagnosis.Fences.{
  Released, Tells, Leaves, on-Tells, then-Tells, event-err, finish_run-Leaves,
}

pub record_retrieval-err :
    (env : Env) (space : Text) (r : Run) (id : Text) (inc : Incident) (found : Bool) (ms : ℕ)
    (db : Db) {e : Error}
    → record_retrieval env space r id inc found ms db ≡ err e
    → is_fenced e ≡ true
    → Released r db
unfolding record_retrieval
record_retrieval-err env space r id inc found ms db h t = λ o. absurd (ground (arith, h, o, t))

pub qualifies-err :
    (lower : Text → Text) (space : Text) (w : Shelf) (inc : Incident) (h : Hit) {e : Error}
    → qualifies lower space w inc h ≡ err e
    → is_fenced e ≡ false
unfolding qualifies load_document
qualifies-err lower space w inc h {e} q = elim (Option-cases (lookup h.chunk_id w.chunks)) [
  | inl x ↦ ground arith
  | inr (c, x) ↦ elim (Option-cases (lookup h.doc_id w.documents)) [
    | inl y ↦ ground arith
    | inr (row, y) ↦ absurd (ground arith)
  ]
]

pub put_hit-runs :
    (ret chunk : Text) (rank : ℕ) (eligible : Bool) (db : Db)
    → (put_hit ret chunk rank eligible db).runs ≡ db.runs
unfolding put_hit
put_hit-runs ret chunk rank eligible db = if_elim (λ (z : Db). z.runs ≡ db.runs) _ _ _ refl refl

pub cite_chunk-ok :
    (env : Env) (r : Run) (id ret : Text) (rank : ℕ) (c : Chunk) (db : Db) (row : RunRow)
    → lookup r.id db.runs ≡ some row
    → {e : Error} → cite_chunk env r id ret rank c db ≡ err e
    → ⊥
unfolding cite_chunk load_run
cite_chunk-ok env r id ret rank c db row f {e} h = absurd (ground (arith, h, f))

pub record_hit-err :
    (env : Env) (r : Run) (id : Text) (rank : ℕ) (c : Chunk) (eligible : Bool) (db : Db) {e : Error}
    → record_hit env r id rank c eligible db ≡ err e
    → is_fenced e ≡ true
    → Released r db
unfolding record_hit
record_hit-err env r id rank c eligible db {e} h t = λ o.
    let (row, found, _, _) = owned-running db r o in
    let ret = retrieval_id env r id in
    let seen = put_hit ret c.id rank eligible db in
    elim (Bool-cases eligible) [
      | inr n ↦ absurd (ground (arith, h, o, n))
      | inl y ↦
          let fails : cite_chunk env r id ret rank c seen ≡ err e = ground (arith, h, o, y) in
          cite_chunk-ok env r id ret rank c seen row
            (ap (lookup r.id) (put_hit-runs ret c.id rank eligible db) ∙ found) fails
    ]

-- The incident is the one that the tables have under an id of the run.
pub record IsAsked (a : Around) (r : Run) (id : Text) (inc : Incident) : Type 0 where
  pub listed : has id r.incident_ids ≡ true
  pub at : Db
  pub found : lookup id (a.incidents at) ≡ some inc

-- The search for an incident of the run returned the hit, which was eligible for that incident with the
-- documents as they were found.
pub record Qualified (a : Around) (r : Run) (h : Hit) : Type 0 where
  pub id : Text
  pub inc : Incident
  pub asked : IsAsked a r id inc
  pub returned : In h (hits_of (a.search inc.name))
  pub at : Db
  pub chunk : Chunk
  pub qualified : qualifies a.to_lower a.space_id (a.shelf at) inc h ≡ ok (chunk, true)

-- All of the hits were returned by the search for the incident.
abbrev AreReturned : Around → Incident → List Hit → Type 0
AreReturned a inc hs = (h : Hit) → In h hs → In h (hits_of (a.search inc.name))

pub add_cite-Qualified :
    (a : Around) (r : Run) (id : Text) (db : Db) (inc : Incident) (h : Hit) (c : Chunk) (b : Bool)
    (so_far : ℕ × Progress)
    → IsAsked a r id inc
    → In h (hits_of (a.search inc.name))
    → qualifies a.to_lower a.space_id (a.shelf db) inc h ≡ ok (c, b)
    → All (Qualified a r) so_far.1.cites
    → All (Qualified a r) (add_cite h c b so_far).1.cites
unfolding add_cite
add_cite-Qualified a r id db inc h c false so_far o g e k = k
add_cite-Qualified a r id db inc h c true so_far o g e k =
    All-append (Qualified a r) so_far.1.cites (h ∷ []) k (
      record { id = id; inc = inc; asked = o; returned = g; at = db; chunk = c; qualified = e },
      tt,
    )

pub AreQualified : Around → Run → Db → ℕ × Progress → Type 0
AreQualified a r db so_far = All (Qualified a r) so_far.1.cites

pub walk_hits-Tells :
    (a : Around) (r : Run) (id : Text) (inc : Incident) (at : Db) (rank : ℕ) (hs : List Hit)
    (so_far : ℕ × Progress) (db : Db)
    → IsAsked a r id inc
    → AreReturned a inc hs
    → All (Qualified a r) so_far.1.cites
    → Tells (AreQualified a r) r (walk_hits a r id inc (a.shelf at) rank hs so_far db)
unfolding walk_hits AreQualified
walk_hits-Tells a r id inc at rank [] so_far db o g k = k
walk_hits-Tells a r id inc at rank (h ∷ hs) so_far db o g k =
    let w = a.shelf at in
    let later : AreReturned a inc hs = λ x i. g x (inr i) in
    on-Tells (AreQualified a r) r db (qualifies a.to_lower a.space_id w inc h) _
      (λ e q t. absurd (ground (arith, qualifies-err a.to_lower a.space_id w inc h q)))
      (λ found q.
        if_elim (Tells (AreQualified a r) r) (found.0.id == []) _ _
          (walk_hits-Tells a r id inc at (suc rank) hs so_far db o later k)
          (on-Tells (AreQualified a r) r (a.others db)
            (record_hit a.env r id (suc rank) found.0 found.1 (a.others db)) _
            (λ e p t. record_hit-err a.env r id (suc rank) found.0 found.1 (a.others db) p t)
            (λ done p.
              walk_hits-Tells a r id inc at (suc rank) hs (add_cite h found.0 found.1 so_far) done o
                later
                (add_cite-Qualified a r id at inc h found.0 found.1 so_far o (g h (inl refl)) q
                  k))))

pub close_incident-cites :
    (found : Bool) (so_far : ℕ × Progress) → (close_incident found so_far).cites ≡ so_far.1.cites
unfolding close_incident
close_incident-cites found (n, p) =
    if_elim (λ (z : Progress). z.cites ≡ p.cites) (ltb 0 n) _ _ refl refl

-- Where the loop has ended early, the run is finished; otherwise the hits cited so far were eligible.
abbrev pub FlowLeaves : Around → Run → Db → Flow → Type 0
FlowLeaves a r db (goes_on p) = All (Qualified a r) p.cites
FlowLeaves a r db ended = Released r db

pub record_found-Tells :
    (a : Around) (r : Run) (id : Text) (inc : Incident) (answer : Option (List Hit)) (p : Progress)
    (db : Db)
    → IsAsked a r id inc
    → AreReturned a inc (hits_of answer)
    → All (Qualified a r) p.cites
    → Tells (FlowLeaves a r) r (record_found a r id inc answer p db)
unfolding record_found AreQualified
record_found-Tells a r id inc answer p db o g k =
    let db' = a.others db in
    on-Tells (FlowLeaves a r) r db'
      (record_retrieval a.env a.space_id r id inc (is_found answer) a.elapsed db') _
      (λ e h t. record_retrieval-err a.env a.space_id r id inc (is_found answer) a.elapsed db' h t)
      (λ done h.
        then-Tells (AreQualified a r) (FlowLeaves a r) r _ _
          (walk_hits-Tells a r id inc db' 0 (hits_of answer) _ done o g k)
          (λ so_far q.
            subst (All (Qualified a r)) (sym (close_incident-cites (is_found answer) so_far)) q))

pub ended_by-Tells :
    (a : Around) (r : Run) (z : Db × Result (Unit {0}))
    → Leaves r z
    → Tells (FlowLeaves a r) r (ended_by z)
unfolding ended_by
ended_by-Tells a r (db, err e) f = f
ended_by-Tells a r (db, ok u) f = f

pub row_incident-err :
    (o : Option Incident) {e : Error} → row_incident o ≡ err e → is_fenced e ≡ false
unfolding row_incident
row_incident-err none {e} h = ground arith
row_incident-err (some inc) {e} h = absurd (ground arith)

row_incident-found : (o : Option Incident) {inc : Incident} → row_incident o ≡ ok inc → o ≡ some inc
unfolding row_incident
row_incident-found none {inc} h = absurd (ground arith)
row_incident-found (some i) {inc} h = ground arith

pub diagnose_incident-Tells :
    (a : Around) (r : Run) (id : Text) (p : Progress) (db : Db)
    → has id r.incident_ids ≡ true
    → All (Qualified a r) p.cites
    → Tells (FlowLeaves a r) r (diagnose_incident a r id p db)
unfolding diagnose_incident
diagnose_incident-Tells a r id p db m k =
    let timeout = failure a (codes "timeout") (codes "诊断超时或取消") in
    let db' = a.others db in
    let ref = some (retrieval_id a.env r id) in
    if_elim (Tells (FlowLeaves a r) r) (a.expired id) _ _
      (ended_by-Tells a r (finish_run a r timeout db)
        (finish_run-Leaves a r timeout db (unfold failure in refl)))
      (on-Tells (FlowLeaves a r) r db (row_incident (lookup id (a.incidents db))) _
        (λ e h t. absurd (ground (arith, row_incident-err (lookup id (a.incidents db)) h)))
        (λ inc h.
          on-Tells (FlowLeaves a r) r db'
            (event a.env db' r Stage.retrieval Kind.started none ref none) _
            (λ e q t. event-err a.env db' r Stage.retrieval Kind.started none ref none q)
            (λ begun q.
              record_found-Tells a r id inc (if a.ready then a.search inc.name else none) p begun
                (record { listed = m; at = db; found = row_incident-found _ h })
                (λ x i.
                  if_elim (λ o. In x (hits_of o) → In x (hits_of (a.search inc.name))) a.ready _ _
                    (λ j. j) (λ j. absurd j) i)
                k)))

pub after_incident-Tells :
    (a : Around) (r : Run) (flow : Flow) (rest : Progress → Db → Db × Result Flow) (db : Db)
    → FlowLeaves a r db flow
    → ((p : Progress) → All (Qualified a r) p.cites → Tells (FlowLeaves a r) r (rest p db))
    → Tells (FlowLeaves a r) r (after_incident flow rest db)
unfolding after_incident
after_incident-Tells a r ended rest db f g = f
after_incident-Tells a r (goes_on p) rest db f g = g p f

pub diagnose_all-Tells :
    (a : Around) (r : Run) (ids : List Text) (p : Progress) (db : Db)
    → ((id : Text) → has id ids ≡ true → has id r.incident_ids ≡ true)
    → All (Qualified a r) p.cites
    → Tells (FlowLeaves a r) r (diagnose_all a r ids p db)
unfolding diagnose_all
diagnose_all-Tells a r [] p db s k = k
diagnose_all-Tells a r (id ∷ ids) p db s k =
    then-Tells (FlowLeaves a r) (FlowLeaves a r) r (diagnose_incident a r id p db) _
      (diagnose_incident-Tells a r id p db (s id (ground (arith, text_beq_iff id id))) k)
      (λ flow f. after_incident-Tells a r flow (diagnose_all a r ids) _ f (λ p' q.
        diagnose_all-Tells a r ids p' (diagnose_incident a r id p db).0
          (λ j i. s j (ground (arith, i))) q))

-- Each hit that a diagnosis cites, and gives to the judge, was returned by the search for an incident of
-- the run, as the tables had it at some time, and was eligible for that incident with the documents as
-- they were found.
pub diagnose_all-Qualified :
    (a : Around) (r : Run) (db db' : Db) (p : Progress)
    → diagnose_all a r r.incident_ids nothing_yet db ≡ (db', ok (goes_on p))
    → All (Qualified a r) p.cites
diagnose_all-Qualified a r db db' p h =
    subst (Tells (FlowLeaves a r) r) h
      (diagnose_all-Tells a r r.incident_ids nothing_yet db (λ id i. i) tt)
