-- ===== src/Workspace/Admission/Inserted.antt =====
-- What `insertRun` leaves in the tables.
use oncall_agent.Prelude.{
  Bool, true, false, ◌&&◌, Option, none, some, List, [], ◌∷◌, ◌++◌, Text, codes, text_eq, lookup,
  insert, ◌≡◌, refl, subst, ◌∙◌, ap, arith, Bool-cases, inl, inr,
}
use oncall_agent.Workspace.State.{
  Run, RunRow, OutboxKind, OutboxState, OutboxRow, Payload, Stage, Kind, Result, ok, err, guard,
  ◌>>=◌, ◌>>◌,
}
use oncall_agent.Workspace.Tables.{add_event, stable_id}
use oncall_agent.Workspace.Recovery.{diagnosis_id}
use oncall_agent.Workspace.Admission.{
  Store, Formats, insert_run_row, link_incidents, put_evidences, put_events, put_diagnosis,
  insert_run, set_latest, put_evidence, last_seen, none_taken,
}

-- The tables of runs, events, business keys and results, and the outbox, are as they were.
record Keeps (s s' : Store) : Type 0 where
  runs : s'.db.runs ≡ s.db.runs
  events : s'.db.events ≡ s.db.events
  outbox : s'.db.outbox ≡ s.db.outbox
  business : s'.business ≡ s.business
  results : s'.results ≡ s.results

Keeps-refl : (s : Store) → Keeps s s
Keeps-refl s = record { runs = refl; events = refl; outbox = refl; business = refl; results = refl }

Keeps-trans : {a b c : Store} → Keeps a b → Keeps b c → Keeps a c
Keeps-trans h k = record {
  runs = k.runs ∙ h.runs;
  events = k.events ∙ h.events;
  outbox = k.outbox ∙ h.outbox;
  business = k.business ∙ h.business;
  results = k.results ∙ h.results;
}

-- What holds of the state that a call gives, if it gives one.
abbrev pub After : (Store → Type 0) → Result Store → Type 0
After P (err e) = Unit
After P (ok s) = P s

bind-After :
    (P Q : Store → Type 0) (m : Result Store) (k : Store → Result Store)
    → After Q m
    → ((t : Store) → Q t → After P (k t))
    → After P (m >>= k)
bind-After P Q (err e) k h f = tt
bind-After P Q (ok t) k h f = f t h

guard-After :
    (P : Store → Type 0) (b : Bool) (e : _) (m : Result Store)
    → (b ≡ true → After P m)
    → After P (guard b e >> m)
guard-After P true e m h = h refl
guard-After P false e m h = tt

set_latest-Keeps :
    (r : Run) (id : Text) (i : Option _) (s : Store) → After (Keeps s) (set_latest r id i s)
unfolding set_latest
set_latest-Keeps r id none s = tt
set_latest-Keeps r id (some inc) s = record {
  runs = refl;
  events = refl;
  outbox = refl;
  business = refl;
  results = refl;
}

Keeps-After : (s t : Store) (m : Result Store) → Keeps s t → After (Keeps t) m → After (Keeps s) m
Keeps-After s t (err e) h k = tt
Keeps-After s t (ok u) h k = Keeps-trans h k

link_incidents-Keeps :
    (r : Run) (ids : List Text) (s : Store) → After (Keeps s) (link_incidents r ids s)
unfolding link_incidents
link_incidents-Keeps r [] s = Keeps-refl s
link_incidents-Keeps r (id ∷ ids) s =
    bind-After (Keeps s) (Keeps s) _ (link_incidents r ids)
      (guard-After (Keeps s) _ _ _ (λ q. set_latest-Keeps r id (lookup id s.incidents) s))
      (λ t h. Keeps-After s t _ h (link_incidents-Keeps r ids t))

put_evidence-Keeps :
    (f : Formats) (r : Run) (id : Text) (o : Option _) (s : Store)
    → After (Keeps s) (put_evidence f r id o s)
unfolding put_evidence
put_evidence-Keeps f r id none s = Keeps-refl s
put_evidence-Keeps f r id (some o) s =
    let key = stable_id f.env (codes "alert_") (r.id ++ id) in
    elim (Bool-cases (none_taken (lookup key s.db.evidence))) [
      | inl new ↦
          rw new
            (record { runs = refl; events = refl; outbox = refl; business = refl; results = refl })
      | inr old ↦ rw old tt
    ]

put_evidences-Keeps :
    (f : Formats) (r : Run) (ids : List Text) (s : Store)
    → After (Keeps s) (put_evidences f r ids s)
unfolding put_evidences
put_evidences-Keeps f r [] s = Keeps-refl s
put_evidences-Keeps f r (id ∷ ids) s =
    bind-After (Keeps s) (Keeps s) _ (put_evidences f r ids)
      (put_evidence-Keeps f r id (last_seen id s.seen) s)
      (λ t h. Keeps-After s t _ h (put_evidences-Keeps f r ids t))

-- The row with which a run begins, and the outbox row that sends it to the queue.
abbrev pub first_row : Run → RunRow
first_row r = record { status = r.status; attempt = 0; revision = 1; lease_until = none; run = r }

abbrev pub diagnosis_row : Formats → Run → OutboxRow
diagnosis_row f r = record {
  kind = OutboxKind.diagnosis;
  payload = Payload.for_run r.id;
  state = OutboxState.pending;
  attempts = 0;
  next_at = f.env.stamp;
  last_error = none;
}

-- What `insertRun` has checked and written.
pub record Inserted (f : Formats) (r : Run) (business : Text) (s s' : Store) : Type 0 where
  pub fresh : lookup r.id s.db.runs ≡ none
  pub runs : s'.db.runs ≡ insert r.id (first_row r) s.db.runs
  pub outbox : s'.db.outbox ≡ insert (diagnosis_id r.id) (diagnosis_row f r) s.db.outbox
  pub events :
      s'.db.events
      ≡ (add_event f.env r Stage.queue Kind.succeeded none none none
          (add_event f.env r Stage.receive Kind.succeeded none none none s.db)).events
  pub business_key : s'.business ≡ insert business r.id s.business
  pub unclaimed : lookup business s.business ≡ none
  pub results : s'.results ≡ s.results

none_taken-none {ℓ} : {V : Type ℓ} (o : Option V) → none_taken o ≡ true → o ≡ none
none_taken-none none h = refl
none_taken-none (some v) h = absurd (ground arith)

-- The state after the row's insertion, and what is known of the state before.
record Rowed (r : Run) (business : Text) (s t : Store) : Type 0 where
  fresh : lookup r.id s.db.runs ≡ none
  unclaimed : lookup business s.business ≡ none
  runs : t.db.runs ≡ insert r.id (first_row r) s.db.runs
  events : t.db.events ≡ s.db.events
  outbox : t.db.outbox ≡ s.db.outbox
  business_key : t.business ≡ insert business r.id s.business
  results : t.results ≡ s.results

insert_run_row-Rowed :
    (r : Run) (business : Text) (s : Store)
    → After (Rowed r business s) (insert_run_row r business s)
unfolding insert_run_row
insert_run_row-Rowed r business s =
    let new_id = none_taken (lookup r.id s.db.runs) in
    let new_key = none_taken (lookup business s.business) in
    elim (Bool-cases (new_id && new_key)) [
      | inl q ↦ rw q (record {
        fresh = none_taken-none (lookup r.id s.db.runs) (ground arith);
        unclaimed = none_taken-none (lookup business s.business) (ground arith);
        runs = refl;
        events = refl;
        outbox = refl;
        business_key = refl;
        results = refl;
      })
      | inr q ↦ rw q tt
    ]

Rowed-Keeps :
    (r : Run) (business : Text) (s t u : Store)
    → Rowed r business s t
    → Keeps t u
    → Rowed r business s u
Rowed-Keeps r business s t u h k = record {
  fresh = h.fresh;
  unclaimed = h.unclaimed;
  runs = k.runs ∙ h.runs;
  events = k.events ∙ h.events;
  outbox = k.outbox ∙ h.outbox;
  business_key = k.business ∙ h.business_key;
  results = k.results ∙ h.results;
}

Rowed-After :
    (r : Run) (business : Text) (s t : Store) (m : Result Store)
    → Rowed r business s t
    → After (Keeps t) m
    → After (Rowed r business s) m
Rowed-After r business s t (err e) h k = tt
Rowed-After r business s t (ok u) h k = Rowed-Keeps r business s t u h k

put_diagnosis-Inserted :
    (f : Formats) (r : Run) (business : Text) (s t : Store)
    → Rowed r business s t
    → After (Inserted f r business s) (put_diagnosis f r (put_events f r t))
unfolding put_diagnosis put_events add_event
put_diagnosis-Inserted f r business s t h =
    elim (Bool-cases (none_taken (lookup (diagnosis_id r.id) t.db.outbox))) [
      | inl q ↦ rw q (record {
        fresh = h.fresh;
        runs = h.runs;
        outbox = ap (insert (diagnosis_id r.id) (diagnosis_row f r)) h.outbox;
        events = rw h.events refl;
        business_key = h.business_key;
        unclaimed = h.unclaimed;
        results = h.results;
      })
      | inr q ↦ rw q tt
    ]

insert_run-After :
    (f : Formats) (r : Run) (business : Text) (s : Store)
    → After (Inserted f r business s) (insert_run f r business s)
unfolding insert_run
insert_run-After f r business s =
    let P = Rowed r business s in
    let evidences = put_evidences f r r.incident_ids in
    bind-After (Inserted f r business s) P
      (insert_run_row r business s >>= link_incidents r r.incident_ids >>= evidences)
      (λ t. put_diagnosis f r (put_events f r t))
      (bind-After P P (insert_run_row r business s >>= link_incidents r r.incident_ids) evidences
        (bind-After P P (insert_run_row r business s) (link_incidents r r.incident_ids)
          (insert_run_row-Rowed r business s)
          (λ t h. Rowed-After r business s t _ h (link_incidents-Keeps r r.incident_ids t)))
        (λ t h. Rowed-After r business s t _ h (put_evidences-Keeps f r r.incident_ids t)))
      (put_diagnosis-Inserted f r business s)

-- A run that is inserted had no row and no run of its business key before; afterwards it has its row,
-- its business key and a pending row of the outbox that sends it to the queue, and the events of its
-- receipt stand after all others.
pub insert_run-Inserted :
    (f : Formats) (r : Run) (business : Text) (s s' : Store)
    → insert_run f r business s ≡ ok s'
    → Inserted f r business s s'
insert_run-Inserted f r business s s' e =
    subst (After (Inserted f r business s)) e (insert_run-After f r business s)
