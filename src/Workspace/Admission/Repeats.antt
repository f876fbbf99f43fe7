-- ===== src/Workspace/Admission/Repeats.antt =====
-- Repeated requests, under an idempotency key and for a set of incidents.
use oncall_agent.Prelude.{
  Bool, true, not, ◌&&◌, none, some, List, [], ◌∷◌, ◌++◌, Text, codes, if◌then◌else◌, ◌==◌, text_eq,
  text_beq_iff, ltb, lookup, ◌≡◌, refl, sym, subst, arith, Option-cases, Bool-cases, inl, inr,
  lookup-insert, beq_refl,
}
use oncall_agent.Workspace.State.{Run, Result, ok, err, Result-cases, conflict}
use oncall_agent.Workspace.Tables.{load_run}
use oncall_agent.Workspace.Admission.{Answered, Store, Formats, last_seen, insert_run, new_run}
use oncall_agent.Workspace.Coherence.Growth.{Sound, load_run-Reads}
use oncall_agent.Workspace.Admission.Inserted.{Inserted, insert_run-Inserted, first_row}
use oncall_agent.Workspace.Admission.Manual.{
  find_result, run_scope, earlier_result, first_result, put_result, re_diagnose, loaded, observed,
}
use oncall_agent.Workspace.Admission.Alerts.{admit_ids, admit_at, business_key, existing, admit_new}

-- A run that was just inserted is the one that its id finds.
load_run-Inserted :
    {f : Formats} {r : Run} {business : Text} {s s' : Store}
    → Inserted f r business s s'
    → load_run s'.db r.id ≡ ok r
unfolding load_run
load_run-Inserted {r = r} {s = s} h =
    rw h.runs (rw (lookup-insert r.id r.id (first_row r) s.db.runs, beq_refl r.id) refl)

find_result-append :
    (scope key : Text) (rs : List Answered) (a : Answered)
    → find_result scope key rs ≡ none
    → a.scope ≡ scope
    → a.key ≡ key
    → find_result scope key (rs ++ a ∷ []) ≡ some a
unfolding find_result
find_result-append scope key [] a h i k =
    ground (arith, text_beq_iff a.scope scope, text_beq_iff a.key key)
find_result-append scope key (x ∷ rs) a h i k = ground (arith, find_result-append scope key rs a)

-- What the tables know of a request that has been answered.
record Knows (f : Formats) (incident key body : Text) (s : Store) (r : Run) : Type 0 where
  answer : Answered
  found : find_result (run_scope incident) key s.results ≡ some answer
  hash : answer.body_hash ≡ f.env.hash body
  run : load_run s.db answer.result_id ≡ ok r

-- What holds of an answer, if there is one.
abbrev Gives : (Store → Run → Type 0) → Result (Store × Run) → Type 0
Gives P (err e) = Unit
Gives P (ok (s, r)) = P s r

Gives-and :
    {Q : Type 0} (P : Store → Run → Type 0) (m : Result (Store × Run))
    → Q
    → Gives P m
    → Gives (λ s r. Q × P s r) m
Gives-and P (err e) q h = tt
Gives-and P (ok (s, r)) q h = (q, h)

module _ (f : Formats) (incident key body : Text) where
  put_result-Knows :
      (business : Text) (s t : Store) (r : Run)
      → find_result (run_scope incident) key s.results ≡ none
      → Inserted f r business s t
      → Knows f incident key body (put_result f incident key body r t).0 r
  unfolding put_result
  put_result-Knows business s t r n h =
      let a : Answered = record {
        scope = run_scope incident;
        key = key;
        body_hash = f.env.hash body;
        result_id = r.id;
      } in
      record {
        answer = a;
        found = rw h.results (find_result-append (run_scope incident) key s.results a n refl refl);
        hash = refl;
        run = load_run-Inserted h;
      }

  first_result-Gives :
      (ready : Bool) (s : Store)
      → find_result (run_scope incident) key s.results ≡ none
      → Gives (Knows f incident key body) (first_result f incident key body ready s)
  unfolding first_result loaded observed
  first_result-Gives ready s n =
      let P = Gives (Knows f incident key body) in
      let business = f.env.hash (codes "manual:" ++ incident ++ codes ":" ++ key) in
      elim (Bool-cases ready) [
        | inr e ↦ rw (e, first_result) tt
        | inl e ↦ elim (Option-cases (lookup incident s.incidents)) [
          | inl e1 ↦ rw (e, e1, first_result) tt
          | inr (inc, e1) ↦ elim (Option-cases (last_seen incident s.seen)) [
            | inl e2 ↦ rw (e, e1, e2, first_result) tt
            | inr (o, e2) ↦
                let r = new_run f business (inc.id ∷ []) in
                elim (Result-cases (insert_run f r business s)) [
                  | inr (x, e3) ↦ rw (e, e1, e2, e3, first_result) tt
                  | inl (t, e3) ↦
                      rw (e, e1, e2, e3, first_result)
                        (put_result-Knows business s t r n
                          (insert_run-Inserted f r business s t e3))
                ]
          ]
        ]
      ]

  earlier_result-Gives :
      (s : Store) (a : Answered)
      → find_result (run_scope incident) key s.results ≡ some a
      → Gives (Knows f incident key body) (earlier_result f body s a)
  unfolding earlier_result
  earlier_result-Gives s a n = elim (Bool-cases (a.body_hash == f.env.hash body)) [
    | inr e ↦ rw (e, earlier_result) tt
    | inl e ↦ elim (Result-cases (load_run s.db a.result_id)) [
      | inr (x, e1) ↦ rw (e, e1, earlier_result) tt
      | inl (r, e1) ↦
          rw (e, e1, earlier_result)
            (record {
              answer = a;
              found = n;
              hash = (text_beq_iff a.body_hash (f.env.hash body)).0 e;
              run = e1;
            })
    ]
  ]

  is_key : Bool
  is_key = not (key == []) && not (ltb 200 (f.byte_length key))

  re_diagnose-Gives :
      (ready : Bool) (s : Store)
      → Gives
          (λ s' r. (is_key ≡ true) × Knows f incident key body s' r)
          (re_diagnose f incident key body ready s)
  unfolding re_diagnose is_key
  re_diagnose-Gives ready s =
      elim (Bool-cases (not (key == []) && not (ltb 200 (f.byte_length key)))) [
        | inr e ↦ rw (e, re_diagnose) tt
        | inl e ↦ elim (Option-cases (find_result (run_scope incident) key s.results)) [
          | inl n ↦
              rw (e, n, re_diagnose)
                (Gives-and (Knows f incident key body) _ refl (first_result-Gives ready s n))
          | inr (a, n) ↦
              rw (e, n, re_diagnose)
                (Gives-and (Knows f incident key body) _ refl (earlier_result-Gives s a n))
        ]
      ]

find_result-more :
    (scope key : Text) (rs more : List Answered) (a : Answered)
    → find_result scope key rs ≡ some a
    → find_result scope key (rs ++ more) ≡ some a
unfolding find_result
find_result-more scope key [] more a h = absurd (ground arith)
find_result-more scope key (x ∷ rs) more a h = ground (arith, find_result-more scope key rs more a)

-- A request that left sound tables has its run again as an answer in all tables in which the results of
-- requests still stand, with others after them, and in which the run is stored, in whatever state it then
-- is; also while dependencies are down, and without a change of the tables. With another body under the
-- same key it is refused as a conflict. sha256 and the length of the key are the same at both
-- times.
pub re_diagnose-repeat :
    (f f' : Formats) (incident key body body' : Text) (ready ready' : Bool) (s s' t : Store)
    (r r' : Run) (more : List Answered)
    → f'.byte_length key ≡ f.byte_length key
    → re_diagnose f incident key body ready s ≡ ok (s', r)
    → Sound s'.db
    → t.results ≡ s'.results ++ more
    → load_run t.db r.id ≡ ok r'
    → re_diagnose f' incident key body' ready' t
      ≡ (if f.env.hash body == f'.env.hash body' then ok (t, r') else err conflict)
unfolding re_diagnose earlier_result is_key
re_diagnose-repeat f f' incident key body body' ready ready' s s' t r r' more l h sound kept
      stored =
    let (valid, k) =
      subst
        (Gives (λ (t : Store) (q : Run).
          (is_key f incident key body ≡ true) × Knows f incident key body t q))
        h (re_diagnose-Gives f incident key body ready s) in
    let valid' : (not (key == []) && not (ltb 200 (f.byte_length key))) ≡ true = valid in
    let found : find_result (run_scope incident) key t.results ≡ some k.answer =
      subst (λ z. find_result (run_scope incident) key z ≡ some k.answer) (sym kept)
        (find_result-more (run_scope incident) key s'.results more k.answer k.found) in
    let run : load_run t.db k.answer.result_id ≡ ok r' =
      subst (λ z. load_run t.db z ≡ ok r')
        (load_run-Reads s'.db k.answer.result_id sound k.run).id_eq stored in
    elim (Bool-cases (f.env.hash body == f'.env.hash body')) [
      | inl same ↦ rw (l, valid', found, earlier_result, k.hash, same, run) refl
      | inr other ↦ rw (l, valid', found, earlier_result, k.hash, other) refl
    ]

admit_new-Inserted :
    (f : Formats) (ready : Bool) (ids : List Text) (business : Text) (s : Store) {s' : Store}
    {r : Run} {b : Bool}
    → admit_new f ready ids business s ≡ ok (s', some r, b)
    → Inserted f r business s s'
unfolding admit_new
admit_new-Inserted f ready ids business s {s'} {r} {b} h =
    let q = new_run f business ids in
    elim (Result-cases (insert_run f q business s)) [
      | inr (x, e) ↦ absurd (ground arith)
      | inl (t, e) ↦
          let same : t ≡ s' = ground arith in
          let run : q ≡ r = ground arith in
          rw (← run, ← same) (insert_run-Inserted f q business s t e)
    ]

admit_ids-found :
    (f : Formats) (ready : Bool) (id : Text) (ids : List Text) (s : Store) {run_id : Text} {r : Run}
    → lookup (business_key f (id ∷ ids)) s.business ≡ some run_id
    → load_run s.db run_id ≡ ok r
    → admit_ids f ready (id ∷ ids) s ≡ ok (s, some r, true)
unfolding admit_ids admit_at existing
admit_ids-found f ready id ids s e e1 = rw (e, e1) refl

module _ (f f' : Formats) where
  -- The runs of a set of incidents: whatever the outcome of the first request, new or not, the same
  -- incidents give that run again, as a duplicate and with no change of the tables, at any later time
  -- and also while dependencies are down. The clock is all that may differ: the business key is the same.
  pub admit_ids-repeat :
      (ids : List Text) (ready ready' : Bool) (s s' : Store) (r : Run) (b : Bool)
      → business_key f' ids ≡ business_key f ids
      → admit_ids f ready ids s ≡ ok (s', some r, b)
      → admit_ids f' ready' ids s' ≡ ok (s', some r, true)
  unfolding admit_ids admit_at existing
  admit_ids-repeat [] ready ready' s s' r b k h = absurd (ground arith)
  admit_ids-repeat (id ∷ ids) ready ready' s s' r b k h =
      let business = business_key f (id ∷ ids) in
      elim (Option-cases (lookup business s.business)) [
        | inr (run_id, e) ↦ elim (Result-cases (load_run s.db run_id)) [
          | inr (x, e1) ↦ absurd (ground arith)
          | inl (q, e1) ↦
              let same : s ≡ s' = ground arith in
              let run : q ≡ r = ground arith in
              admit_ids-found f' ready' id ids s'
                (subst (λ z. lookup z s'.business ≡ some run_id) (sym k) (rw (← same) e))
                (rw (← same, ← run) e1)
        ]
        | inl e ↦
            let new =
              admit_new-Inserted f ready (id ∷ ids) business s {s' = s'} {r = r} {b = b}
                (ground arith) in
            let listed : lookup business s'.business ≡ some r.id =
              rw new.business_key
                (rw (lookup-insert business business r.id s.business, beq_refl business) refl) in
            admit_ids-found f' ready' id ids s'
              (subst (λ z. lookup z s'.business ≡ some r.id) (sym k) listed) (load_run-Inserted new)
      ]
