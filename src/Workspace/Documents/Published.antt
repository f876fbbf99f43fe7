-- ===== src/Workspace/Documents/Published.antt =====
-- `PutDocument`: the staging and the publishing of a version.
use oncall_agent.Prelude.{
  false, not, ◌||◌, Option, none, some, List, Text, ◌==◌, text_eq, beq_refl, lookup, insert, ◌≡◌,
  refl, arith, Bool-cases, Option-cases, inl, inr, lookup-insert, ◌∙◌, ap, if_elim,
}
use oncall_agent.Retrieval.Versions.{VersionChunk, index_version}
use oncall_agent.Workspace.State.{Error, ok, err, Result-cases, no_rows, index_failed, unavailable}
use oncall_agent.Workspace.Documents.{
  VersionStatus, IndexStatus, Document, Version, DocumentRow, Shelf, Knowledge, load_version,
  load_document,
}
use oncall_agent.Workspace.Documents.Requests.{Draft}
use oncall_agent.Workspace.Documents.Put.{
  version_id, staged, stage, supersede, save_titled, published_document, published_version, publish,
  restored, publish_indexed, put_version, update_version, version_chunks, put_chunks, answer,
}
use oncall_agent.Workspace.Documents.Ordered.{
  IsOrdered, is_refusal, on-Ends, insert-IsKeyed, version-id, insert_version-IsOrdered,
  update_version-IsOrdered, lookup-update_version, load_version-lookup, load_version-err,
}
use oncall_agent.Workspace.Documents.Found.{
  IsNamed, Fails, PutsBoth, Outcome, IsReady, restored-Outcome, Found, Fails-later,
}

stage-IsOrdered : (c : Knowledge) (t : Draft) (w : Shelf) → IsOrdered w → IsOrdered (stage c t w).0
unfolding stage
stage-IsOrdered c t w o =
    let v = staged c t (version_id c t) (lookup (version_id c t) w.versions) in
    record { keyed = o.keyed; filed = insert_version-IsOrdered v w o }

staged-id :
    (c : Knowledge) (t : Draft) (w : Shelf) → IsOrdered w → (stage c t w).1.id ≡ version_id c t
unfolding stage staged
staged-id c t w o = elim (Option-cases (lookup (version_id c t) w.versions)) [
  | inl e ↦ rw e refl
  | inr (v, e) ↦ rw e (version-id w (version_id c t) v o e)
]

stage-lookup :
    (c : Knowledge) (t : Draft) (w : Shelf)
    → lookup (stage c t w).1.id (stage c t w).0.versions ≡ some (stage c t w).1
unfolding stage
stage-lookup c t w =
    let v = staged c t (version_id c t) (lookup (version_id c t) w.versions) in
    rw (lookup-insert v.id v.id v w.versions, beq_refl v.id) refl

-- The superseding of the version before.
record Supersedes (w w1 : Shelf) : Type 0 where
  ordered : IsOrdered w1
  documents : w1.documents ≡ w.documents
  kept :
      (id : Text) (u : Version)
      → lookup id w.versions ≡ some u
      → (u' : Version) × (lookup id w1.versions ≡ some u')

supersede-Supersedes :
    (old : Option Text) (w w1 : Shelf) → IsOrdered w → supersede old w ≡ ok w1 → Supersedes w w1
unfolding supersede
supersede-Supersedes none w w1 o h =
    let same : w ≡ w1 = ground arith in
    rw (← same) (record { ordered = o; documents = refl; kept = λ id u e. (u, e) })
supersede-Supersedes (some id) w w1 o h = elim (Result-cases (load_version w id)) [
  | inr (x, e) ↦ absurd (ground arith)
  | inl (v, e) ↦
      let v' = record v { status = VersionStatus.superseded } in
      let made : update_version v' w ≡ w1 = ground arith in
      let found = load_version-lookup w id e in
      let id_eq = version-id w id v o found in
      rw (← made) (record {
        ordered = update_version-IsOrdered v' w o;
        documents = unfold update_version in refl;
        kept = λ j u q.
            let here =
              lookup-update_version v' v w j (ap (λ z. lookup z w.versions) id_eq ∙ found) in
            elim (Bool-cases (v'.id == j)) [
              | inl s ↦ (v', here ∙ rw s refl)
              | inr n ↦ (u, here ∙ rw n q)
            ];
      })
]

supersede-err : (old : Option Text) (w : Shelf) {e : Error} → supersede old w ≡ err e → e ≡ no_rows
unfolding supersede
supersede-err none w {e} h = absurd (ground arith)
supersede-err (some id) w {e} h = elim (Result-cases (load_version w id)) [
  | inr (x, q) ↦ ground (arith, load_version-err w id q)
  | inl (v, q) ↦ absurd (ground arith)
]

publish-IsReady :
    (c : Knowledge) (t : Draft) (w w1 w' : Shelf) (d d' : Document) (old : Option Text)
    (v u : Version)
    → Found t w w1 d
    → d'.id ≡ t.id
    → IsNamed d' v
    → lookup v.id w1.versions ≡ some u
    → publish c t v.id old d' v w1 ≡ ok w'
    → IsReady t w w' d' v
unfolding publish save_titled load_document load_version
publish-IsReady c t w w1 w' d d' old v u f i k q h = elim (Result-cases (supersede old w1)) [
  | inr (x, e) ↦ absurd (ground arith)
  | inl (w2, e) ↦
      let s = supersede-Supersedes old w1 w2 f.ordered e in
      let here : lookup t.id w2.documents ≡ some f.row = rw s.documents f.found in
      let row : DocumentRow = record f.row { title = c.formats.to_lower t.title; document = d' } in
      let rows = insert t.id row w2.documents in
      let w3 = update_version v w2 in
      let (u', there) = s.kept v.id u q in
      let made : record w3 {
        documents = rows;
        chunks = put_chunks v.chunks w2.chunks;
        results = answer t v.id w2.results;
      }
          ≡ w' =
        ground (arith, h, e, here) in
      rw (← made) (record {
        ordered = record {
          keyed = insert-IsKeyed t.id row w2.documents i s.ordered.keyed;
          filed = (update_version-IsOrdered v w2 s.ordered).filed;
        };
        id_eq = i;
        named = λ key. k;
        document = rw (lookup-insert t.id t.id row w2.documents, beq_refl t.id) refl;
        version = rw (lookup-update_version v u' w2 v.id there, beq_refl v.id) refl;
        others = λ j n. lookup-insert t.id j row w2.documents ∙ rw (n, s.documents) (f.others j n);
      })
]

publish-err :
    (c : Knowledge) (t : Draft) (w : Shelf) (d : Document) (old : Option Text) (id : Text)
    (v : Version) {e : Error}
    → publish c t id old d v w ≡ err e
    → is_refusal e ≡ false
unfolding publish save_titled
publish-err c t w d old id v {e} h = elim (Result-cases (supersede old w)) [
  | inr (x, q) ↦ ground (arith, supersede-err old w q)
  | inl (w1, q) ↦ elim (Option-cases (lookup t.id w1.documents)) [
    | inl p ↦ absurd (ground arith)
    | inr (row, p) ↦ ground arith
  ]
]

publish_indexed-Outcome :
    (c : Knowledge) (t : Draft) (w w1 : Shelf) (d : Document) (v : Version)
    (made : Option (List VersionChunk))
    → Found t w w1 d
    → v.id ≡ version_id c t
    → lookup v.id w1.versions ≡ some v
    → Outcome c t w (publish_indexed c t d v w1 made)
unfolding publish_indexed
publish_indexed-Outcome c t w w1 d v none f i q =
    let failed = record v { index_status = IndexStatus.failed } in
    Fails-later w (update_version failed w1) index_failed
      (update_version-IsOrdered failed w1 f.ordered) refl
publish_indexed-Outcome c t w w1 d v (some cs) f i q =
    let d' = published_document t v.id d in
    let v' = published_version (version_chunks t c v.id cs) v in
    rw (← i) (
      on-Ends (Fails w) (PutsBoth c t w) w1 (publish c t v.id d.active_version_id d' v' w1)
        (λ w'. restored c w' (d', v'))
        (λ e h. Fails-later w w1 e f.ordered (publish-err c t w1 d' d.active_version_id v.id v' h))
        (λ w' h. restored-Outcome c t w w' d' v' (
          publish-IsReady c t w w1 w' d d' d.active_version_id v' v f
            (unfold published_document in f.id_eq)
            (unfold published_document published_version in (refl, refl))
            (unfold published_version in q) h)))

found-of_documents :
    (t : Draft) (w w1 w2 : Shelf) (d : Document)
    → Found t w w1 d
    → IsOrdered w2
    → w2.documents ≡ w1.documents
    → Found t w w2 d
found-of_documents t w w1 w2 d f o e = record {
  ordered = o;
  row = f.row;
  found = rw e f.found;
  held = f.held;
  id_eq = f.id_eq;
  others = λ j n. rw e (f.others j n);
}

pub put_version-Outcome :
    (c : Knowledge) (t : Draft) (w w1 : Shelf) (d : Document)
    → Found t w w1 d
    → Outcome c t w (put_version c t d w1)
unfolding put_version
put_version-Outcome c t w w1 d f =
    let s = stage c t w1 in
    let o = stage-IsOrdered c t w1 f.ordered in
    let made =
      index_version c.backend t.id (version_id c t) t.title t.content t.source c.space_id s.0.rag in
    let w2 = record s.0 { rag = made.0 } in
    let f2 =
      found-of_documents t w w1 w2 d f (record { keyed = o.keyed; filed = o.filed })
        (unfold stage in refl) in
    if_elim (Outcome c t w) (not c.has_rag || not c.source_ready) _ _
      (Fails-later w s.0 unavailable o refl)
      (publish_indexed-Outcome c t w w2 d s.1 made.1 f2 (staged-id c t w1 f.ordered)
        (stage-lookup c t w1))
