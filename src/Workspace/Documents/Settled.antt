-- ===== src/Workspace/Documents/Settled.antt =====
-- `PutDocument` as a whole.
use oncall_agent.Prelude.{
  false, Option, none, some, [], Text, ◌==◌, text_eq, text_beq_iff, lookup, ◌≡◌, refl, arith,
  Bool-cases, Option-cases, inl, inr, ◌∙◌, sym, ap, subst,
}
use oncall_agent.Workspace.State.{Error, ok, err, Result-cases, on}
use oncall_agent.Workspace.Admission.{Answered}
use oncall_agent.Workspace.Admission.Manual.{find_result}
use oncall_agent.Workspace.Documents.{
  Document, Version, Shelf, Knowledge, load_version, load_document, row_version,
}
use oncall_agent.Workspace.Documents.Requests.{
  Request, Draft, draft_of, prepare, replay, earlier_put, find_document, is_unchanged, unchanged,
}
use oncall_agent.Workspace.Documents.Put.{
  remember, keep_or_put, put_found, replay_or_put, put_document,
}
use oncall_agent.Workspace.Documents.Ordered.{
  IsOrdered, is_refusal, on-Ends, row-id, version-id, load_version-lookup, load_version-err,
}
use oncall_agent.Workspace.Documents.Found.{
  IsNamed, Fails, Puts, PutsBoth, Outcome, Found, Fails-later, restored-Outcome, IsReady-of_found,
  find_document-Found, IsReady,
}
use oncall_agent.Workspace.Documents.Published.{put_version-Outcome}

unchanged-lookup :
    (c : Knowledge) (t : Draft) (w : Shelf) (d : Document) (cur : Option Text) (old : Version)
    → IsOrdered w
    → unchanged c t w d cur ≡ ok (some old)
    → lookup old.id w.versions ≡ some old
unfolding unchanged
unchanged-lookup c t w d none old o h = absurd (ground arith)
unchanged-lookup c t w d (some id) old o h = elim (Result-cases (load_version w id)) [
  | inr (x, e) ↦ absurd (ground arith)
  | inl (v, e) ↦
      let same : v ≡ old = ground arith in
      let found = load_version-lookup w id e in
      let id_eq = version-id w id v o found in
      rw (← same) (ap (λ z. lookup z w.versions) id_eq ∙ found)
]

unchanged-IsNamed :
    (c : Knowledge) (t : Draft) (w : Shelf) (d : Document) (cur : Option Text) (old : Version)
    → IsOrdered w
    → d.active_version_id ≡ cur
    → unchanged c t w d cur ≡ ok (some old)
    → IsNamed d old
unfolding unchanged is_unchanged
unchanged-IsNamed c t w d none old o a h = absurd (ground arith)
unchanged-IsNamed c t w d (some id) old o a h = elim (Result-cases (load_version w id)) [
  | inr (x, e) ↦ absurd (ground arith)
  | inl (v, e) ↦
      let same : v ≡ old = ground arith in
      let id_eq = version-id w id v o (load_version-lookup w id e) in
      (a ∙ ap some (sym id_eq ∙ ap (λ z. z.id) same), ground (arith, Option-cases d.deleted_at))
]

unchanged-err :
    (c : Knowledge) (t : Draft) (w : Shelf) (d : Document) (cur : Option Text) {e : Error}
    → unchanged c t w d cur ≡ err e
    → is_refusal e ≡ false
unfolding unchanged
unchanged-err c t w d none {e} h = absurd (ground arith)
unchanged-err c t w d (some id) {e} h = elim (Result-cases (load_version w id)) [
  | inr (x, q) ↦ ground (arith, load_version-err w id q)
  | inl (v, q) ↦ absurd (ground arith)
]

keep_or_put-Outcome :
    (c : Knowledge) (t : Draft) (w w1 : Shelf) (d : Document) (o : Option Version)
    → Found t w w1 d
    → unchanged c t w1 d d.active_version_id ≡ ok o
    → Outcome c t w (keep_or_put c t d w1 o)
unfolding keep_or_put
keep_or_put-Outcome c t w w1 d none f h = put_version-Outcome c t w w1 d f
keep_or_put-Outcome c t w w1 d (some old) f h =
    let w2 = record w1 { results = remember t old.id w1.results } in
    restored-Outcome c t w w2 d old (
      IsReady-of_found t w w1 w2 d d old f
        (record { keyed = f.ordered.keyed; filed = f.ordered.filed }) refl refl
        (unchanged-lookup c t w1 d d.active_version_id old f.ordered h)
        (unchanged-IsNamed c t w1 d d.active_version_id old f.ordered refl h))

put_found-Outcome :
    (c : Knowledge) (t : Draft) (w w1 : Shelf) (d : Document)
    → Found t w w1 d
    → Outcome c t w (put_found c t w1 d)
unfolding put_found
put_found-Outcome c t w w1 d f =
    on-Ends (Fails w) (PutsBoth c t w) w1 (unchanged c t w1 d d.active_version_id)
      (keep_or_put c t d w1)
      (λ e h. Fails-later w w1 e f.ordered (unchanged-err c t w1 d d.active_version_id h))
      (λ o h. keep_or_put-Outcome c t w w1 d o f h)

-- What an earlier request left.
earlier_put-IsReady :
    (t : Draft) (w : Shelf) (a : Option Answered) (d : Document) (v : Version)
    → IsOrdered w
    → (t.key ≡ [] → ⊥)
    → earlier_put t w a ≡ ok (some (d, v))
    → IsReady t w w d v
unfolding earlier_put load_document load_version
earlier_put-IsReady t w none d v o k h = absurd (ground arith)
earlier_put-IsReady t w (some a) d v o k h = elim (Option-cases (lookup t.id w.documents)) [
  | inl e ↦ absurd (ground arith)
  | inr (row, e) ↦ elim (Option-cases (lookup a.result_id w.versions)) [
    | inl q ↦ absurd (ground arith)
    | inr (u, q) ↦
        let held : row.document ≡ d = ground arith in
        let same : u ≡ v = ground arith in
        let there : lookup u.id w.versions ≡ some u =
          ap (λ z. lookup z w.versions) (version-id w a.result_id u o q) ∙ q in
        record {
          ordered = o;
          id_eq = ap (λ x. x.id) (sym held) ∙ row-id w t.id row o e;
          named = λ n. absurd (k n);
          document = rw e (ap ok held);
          version =
              subst (λ (z : Version). row_version (lookup z.id w.versions) ≡ ok z) same
                (rw there refl);
          others = λ j n. refl;
        }
  ]
]

replay-IsReady :
    (t : Draft) (w : Shelf) (d : Document) (v : Version)
    → IsOrdered w
    → replay t w ≡ ok (some (d, v))
    → IsReady t w w d v
unfolding replay
replay-IsReady t w d v o h = elim (Bool-cases (t.key == [])) [
  | inl e ↦ absurd (ground arith)
  | inr e ↦
      earlier_put-IsReady t w (find_result t.scope t.key w.results) d v o
        (λ k. ground (arith, text_beq_iff t.key [])) (ground arith)
]

at_once : (w : Shelf) (e : Error) → IsOrdered w → Fails w w e
at_once w e o = record { ordered = o; unchanged = λ r. refl }

replay_or_put-Outcome :
    (c : Knowledge) (t : Draft) (w : Shelf) (o : Option (Document × Version))
    → IsOrdered w
    → replay t w ≡ ok o
    → Outcome c t w (replay_or_put c t w o)
unfolding replay_or_put
replay_or_put-Outcome c t w none o h =
    on-Ends (Fails w) (PutsBoth c t w) w (find_document c t w (lookup t.id w.documents))
      (λ found. put_found c t found.0 found.1) (λ e q. at_once w e o)
      (λ found q.
        put_found-Outcome c t w found.0 found.1 (find_document-Found c t w found.0 found.1 o q))
replay_or_put-Outcome c t w (some made) o h =
    restored-Outcome c t w w made.0 made.1 (replay-IsReady t w made.0 made.1 o h)

draft-Outcome :
    (c : Knowledge) (t : Draft) (w : Shelf)
    → IsOrdered w
    → Outcome c t w (on w (replay t w) (replay_or_put c t w))
draft-Outcome c t w o =
    on-Ends (Fails w) (PutsBoth c t w) w (replay t w) (replay_or_put c t w) (λ e h. at_once w e o)
      (λ made h. replay_or_put-Outcome c t w made o h)

put_document-Outcome :
    (c : Knowledge) (q : Request) (w : Shelf)
    → IsOrdered w
    → Outcome c (draft_of c q) w (put_document c q w)
unfolding put_document prepare
put_document-Outcome c q w o =
    let t = draft_of c q in
    on-Ends (Fails w) (PutsBoth c t w) w (prepare c q)
      (λ t. on w (replay t w) (replay_or_put c t w)) (λ e h. at_once w e o)
      (λ t' h.
        let same : t ≡ t' = ground arith in
        subst (λ z. Outcome c t w (on w (replay z w) (replay_or_put c z w))) same
          (draft-Outcome c t w o))

-- What a put that succeeds leaves: the tables are in order; the active versions of the projection are
-- those that the tables show, and every chunk of a shown version has its id in the projection and in
-- the keyword index, for a chunk that is shown; the returned document and version are those of
-- the tables; and no other document is touched.
-- Without an idempotency key the document is live and names the version.
pub put_document-Puts :
    (c : Knowledge) (q : Request) (w w' : Shelf) (d : Document) (v : Version)
    → IsOrdered w
    → put_document c q w ≡ (w', ok (d, v))
    → Puts c (draft_of c q) w w' d v
put_document-Puts c q w w' d v o h =
    subst (Outcome c (draft_of c q) w) h (put_document-Outcome c q w o)

-- A put that fails leaves the tables in order, and one that is refused, since the request is invalid
-- or conflicts with what is stored, has changed nothing.
pub put_document-Fails :
    (c : Knowledge) (q : Request) (w w' : Shelf) (e : Error)
    → IsOrdered w
    → put_document c q w ≡ (w', err e)
    → Fails w w' e
put_document-Fails c q w w' e o h =
    subst (Outcome c (draft_of c q) w) h (put_document-Outcome c q w o)
