-- ===== src/Workspace/Documents/Discharged.antt =====
-- `dispatchCleanup` in the loop of `Dispatch`, and a deletion followed by its cleanup.
use oncall_agent.Prelude.{
  true, false, not, ◌&&◌, ◌||◌, none, some, [], Text, ◌==◌, text_eq, beq_refl, lookup, keys,
  Distinct, ◌≡◌, refl, arith, Bool-cases, inl, inr, lookup-insert, ◌∙◌, sym, ap, subst, if_elim,
}
use oncall_agent.Retrieval.Versions.{VersionChunk, delete_version}
use oncall_agent.Retrieval.Versions.Dropped.{delete_version-lookup, delete_version-Drops}
use oncall_agent.Workspace.State.{Payload, ok, Result-cases}
use oncall_agent.Workspace.Dispatch.{Outside, sent_row, update_row}
use oncall_agent.Workspace.Coherence.Growth.{Evolves-other}
use oncall_agent.Workspace.Coherence.Deliveries.{CleansUp}
use oncall_agent.Workspace.Documents.{
  IndexStatus, Document, DocumentRow, Shelf, Knowledge, load_document,
}
use oncall_agent.Workspace.Documents.Remove.{
  update_document, names, serves, none_set, clean_projection, settle_cleanup, clean_up, cleanup_of,
  dispatch_cleanup, clean_up_with, cleanup_row, delete_document,
}
use oncall_agent.Workspace.Documents.Ordered.{IsOrdered, row-id}
use oncall_agent.Workspace.Documents.Removed.{delete_document-Deletes, load_document-lookup}

clean_projection-db :
    (c : Knowledge) (d : Document) (version : Text) (w w' : Shelf)
    → clean_projection c d version w ≡ ok w'
    → w.db ≡ w'.db
unfolding clean_projection
clean_projection-db c d version w w' h = elim (Bool-cases (serves d version)) [
  | inl s ↦ let same : w ≡ w' = ground arith in ap (λ z. z.db) same
  | inr s ↦ elim (Bool-cases (c.has_rag && c.deletes version)) [
    | inr n ↦ absurd (ground arith)
    | inl y ↦
        let made : record w { rag = delete_version version w.rag } ≡ w' = ground arith in
        ap (λ z. z.db) made
  ]
]

settle_cleanup-db :
    (row_id : Text) (d : Document) (version : Text) (w : Shelf)
    → (settle_cleanup row_id d version w).db ≡ update_row sent_row row_id w.db
unfolding settle_cleanup update_document
settle_cleanup-db row_id d version w =
    if_elim (λ (z : Shelf). update_row sent_row row_id z.db ≡ update_row sent_row row_id w.db) _ _ _
      refl refl

clean_up-db :
    (c : Knowledge) (row_id id version : Text) (w w' : Shelf)
    → clean_up c row_id id version w ≡ ok w'
    → update_row sent_row row_id w.db ≡ w'.db
unfolding clean_up
clean_up-db c row_id id version w w' h = elim (Result-cases (load_document w id)) [
  | inr (x, e) ↦ absurd (ground arith)
  | inl (d, e) ↦ elim (Result-cases (clean_projection c d version w)) [
    | inr (x, q) ↦ absurd (ground arith)
    | inl (w1, q) ↦
        let made : settle_cleanup row_id d version w1 ≡ w' = ground arith in
        ap (update_row sent_row row_id) (clean_projection-db c d version w w1 q)
        ∙ sym (settle_cleanup-db row_id d version w1)
        ∙ ap (λ z. z.db) made
  ]
]

cleanup_of-db :
    (c : Knowledge) (row_id : Text) (p : Payload) (w w' : Shelf)
    → cleanup_of c row_id p w ≡ ok w'
    → update_row sent_row row_id w.db ≡ w'.db
unfolding cleanup_of
cleanup_of-db c row_id Payload.garbled w w' h = absurd (ground arith)
cleanup_of-db c row_id (Payload.for_run run_id) w w' h = absurd (ground arith)
cleanup_of-db c row_id (Payload.for_version id version) w w' h =
    elim (Bool-cases (id == [] || version == [])) [
      | inl e ↦ absurd (ground arith)
      | inr e ↦ clean_up-db c row_id id version w w' (ground arith)
    ]

-- The cleanup that the loop of `Dispatch` calls, whatever documents and projection it finds, lets the
-- tables of runs and events evolve as every other step of the service does.
pub dispatch_cleanup-CleansUp :
    (c : Knowledge) (at : Text → Shelf) (x : Outside)
    → CleansUp (record x { clean_up = clean_up_with c at })
unfolding clean_up_with dispatch_cleanup
dispatch_cleanup-CleansUp c at x id row db db' s h =
    let w : Shelf = record (at id) { db = db } in
    elim (Result-cases (dispatch_cleanup c id row w)) [
      | inr (y, e) ↦ absurd (ground arith)
      | inl (w', e) ↦
          let written : w'.db ≡ db' = ground arith in
          let sent : update_row sent_row id db ≡ db' =
            cleanup_of-db c id row.payload w w' e ∙ written in
          rw (← sent)
            (unfold update_row in Evolves-other db (update_row sent_row id db) s refl refl)
    ]

-- What a cleanup after a deletion has reached.
pub record Finishes (c : Knowledge) (id expected row_id : Text) (w w' : Shelf) : Type 0 where
  pub removed :
      (d : Document) × (load_document w' id ≡ ok d) × (d.index_status ≡ IndexStatus.removed)
  pub sent : w'.db ≡ update_row sent_row row_id w.db
  pub hidden : lookup id w'.rag.active ≡ none
  pub gone :
      (cid : Text) (ch : VersionChunk)
      → lookup cid w.rag.chunks ≡ some ch
      → ch.version_id ≡ expected
      → lookup cid w'.rag.chunks ≡ none

Finishes-of :
    (c : Knowledge) (expected row_id : Text) (w : Shelf) (d : Document) (row : DocumentRow)
    → serves d expected ≡ false
    → (not (none_set d.deleted_at) && names d expected) ≡ true
    → lookup d.id w.documents ≡ some row
    → lookup d.id w.rag.active ≡ none
    → Distinct (keys w.rag.chunks)
    → Finishes c d.id expected row_id w
        (settle_cleanup row_id d expected (record w { rag = delete_version expected w.rag }))
unfolding settle_cleanup update_document load_document
Finishes-of c expected row_id w d row off named e hid k =
    let removed = record d { index_status = IndexStatus.removed } in
    let new : DocumentRow = record row { document = removed } in
    rw (off, named, e)
      (record {
        removed = (removed, rw (lookup-insert d.id d.id new w.documents, beq_refl d.id) refl, refl);
        sent = refl;
        hidden = ap (lookup d.id) (delete_version-Drops expected w.rag).active ∙ hid;
        gone = λ cid ch q v.
            delete_version-lookup expected cid w.rag ch k q ∙ rw (v, beq_refl expected) refl;
      })

-- After a deletion, the cleanup that it put into the outbox succeeds if the vector store answers.
pub delete_document-cleanup :
    (c : Knowledge) (id expected row_id : Text) (w w' : Shelf) (d : Document)
    → IsOrdered w
    → (id == []) ≡ false
    → Distinct (keys w'.rag.chunks)
    → c.has_rag ≡ true
    → c.deletes expected ≡ true
    → delete_document c id expected w ≡ (w', ok d)
    → (w'' : Shelf) × (dispatch_cleanup c row_id (cleanup_row c.formats.env id expected) w'
        ≡ ok w'')
      × Finishes c id expected row_id w' w''
unfolding dispatch_cleanup cleanup_of cleanup_row clean_up
delete_document-cleanup c id expected row_id w w' d o i k r v h =
    let del = delete_document-Deletes c id expected w w' d o h in
    let (row, found, held) = load_document-lookup w' id del.document in
    let id_eq : d.id ≡ id = ap (λ x. x.id) (sym held) ∙ row-id w' id row del.ordered found in
    let off : serves d expected ≡ false = unfold serves in rw del.stamped refl in
    let w1 = record w' { rag = delete_version expected w'.rag } in
    let projected : clean_projection c d expected w' ≡ ok w1 =
      unfold clean_projection in rw (off, r, v) refl in
    (
      settle_cleanup row_id d expected w1,
      rw (i, del.given, del.document, projected) refl,
      subst (λ z. Finishes c z expected row_id w' (settle_cleanup row_id d expected w1)) id_eq
          (Finishes-of c expected row_id w' d row off (ground (arith, del.stamped, del.names))
            (ap (λ z. lookup z w'.documents) id_eq ∙ found)
            (ap (λ z. lookup z w'.rag.active) id_eq ∙ del.hidden) k),
    )
