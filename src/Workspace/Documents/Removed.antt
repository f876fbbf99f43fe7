-- ===== src/Workspace/Documents/Removed.antt =====
-- The end of `DeleteDocument`: the document is served no more, and a cleanup is due.
use oncall_agent.Prelude.{
  true, false, none, some, List, [], Text, ◌==◌, text_eq, beq_refl, lookup, insert, ◌≡◌, refl,
  arith, Option-cases, inl, inr, lookup-insert, ◌∙◌, sym, ap, subst,
}
use oncall_agent.Workspace.State.{Error, Result, ok, err, constraint, ◌>>◌, on}
use oncall_agent.Workspace.Documents.{
  Document, Version, DocumentRow, Shelf, Knowledge, load_document, restore_projection, current,
}
use oncall_agent.Workspace.Documents.Remove.{
  update_document, names, deleted, cleanup_id, cleanup_row, put_cleanup, mark_deleted,
  check_expected, delete_document,
}
use oncall_agent.Workspace.Documents.Held.{HoldsAll}
use oncall_agent.Workspace.Documents.Mirrored.{
  Mirrors, restore_projection-Restores, shown, shown_row, shown_document,
}
use oncall_agent.Workspace.Documents.Ordered.{
  IsOrdered, Ends, on-Ends, insert-IsKeyed, row-id, restore_projection-err,
}
use oncall_agent.Workspace.Documents.Found.{Fails, Fails-later}

pub load_document-lookup :
    (w : Shelf) (id : Text) {d : Document}
    → load_document w id ≡ ok d
    → (row : DocumentRow) × (lookup id w.documents ≡ some row) × (row.document ≡ d)
unfolding load_document
load_document-lookup w id {d} h = elim (Option-cases (lookup id w.documents)) [
  | inl e ↦ absurd (ground arith)
  | inr (row, e) ↦ (row, e, ground arith)
]

-- What a deletion leaves.
pub record Deletes (c : Knowledge) (id expected : Text) (w w' : Shelf) (d : Document) : Type 0 where
  pub ordered : IsOrdered w'
  pub mirrors : Mirrors c w'
  pub holds : HoldsAll c w'
  pub stamped : d.deleted_at ≡ some c.formats.env.stamp
  pub names : names d expected ≡ true
  pub given : (expected == []) ≡ false
  pub document : load_document w' id ≡ ok d
  pub hidden : lookup id w'.rag.active ≡ none
  pub due :
      lookup (cleanup_id c.formats.env id expected) w'.db.outbox
      ≡ some (cleanup_row c.formats.env id expected)
  pub others : (j : Text) → (id == j) ≡ false → lookup j w'.documents ≡ lookup j w.documents

-- The tables of the transaction.
record Marks (c : Knowledge) (id expected : Text) (w w' : Shelf) (d : Document) : Type 0 where
  ordered : IsOrdered w'
  row : DocumentRow
  found : lookup id w'.documents ≡ some row
  held : row.document ≡ d
  due :
      lookup (cleanup_id c.formats.env id expected) w'.db.outbox
      ≡ some (cleanup_row c.formats.env id expected)
  others : (j : Text) → (id == j) ≡ false → lookup j w'.documents ≡ lookup j w.documents

mark_deleted-Marks :
    (c : Knowledge) (id expected : Text) (d : Document) (row : DocumentRow) (w w' : Shelf)
    → IsOrdered w
    → d.id ≡ id
    → lookup id w.documents ≡ some row
    → mark_deleted c id expected d w ≡ ok w'
    → Marks c id expected w w' d
unfolding mark_deleted put_cleanup update_document
mark_deleted-Marks c id expected d row w w' o i e h =
    let env = c.formats.env in
    let key = cleanup_id env id expected in
    let due = cleanup_row env id expected in
    let new : DocumentRow = record row { document = d } in
    let rows = insert id new w.documents in
    let made : record w {
      documents = rows;
      db = record w.db { outbox = insert key due w.db.outbox };
    }
        ≡ w' =
      ground (arith, e, h) in
    rw (← made) (record {
      ordered = record { keyed = insert-IsKeyed id new w.documents i o.keyed; filed = o.filed };
      row = new;
      found = rw (lookup-insert id id new w.documents, beq_refl id) refl;
      held = refl;
      due = rw (lookup-insert key key due w.db.outbox, beq_refl key) refl;
      others = λ j n. rw (lookup-insert id j new w.documents, n) refl;
    })

mark_deleted-err :
    (c : Knowledge) (id expected : Text) (d : Document) (w : Shelf) {e : Error}
    → mark_deleted c id expected d w ≡ err e
    → e ≡ constraint
unfolding mark_deleted put_cleanup
mark_deleted-err c id expected d w {e} h = ground arith

abbrev IsDeleted : Knowledge → Text → Text → Shelf → Shelf × Result Document → Type 0
IsDeleted c id expected w = Ends (Fails w) (Deletes c id expected w)

shown-deleted :
    (c : Knowledge) (vs : List (Text × Version)) (row : DocumentRow) (stamp : Text)
    → row.document.deleted_at ≡ some stamp
    → shown_row c vs (some row) ≡ none
unfolding shown_row current shown_document
shown-deleted c vs row stamp h = rw h refl

restore-IsDeleted :
    (c : Knowledge) (id expected : Text) (w w1 : Shelf) (d : Document)
    → Marks c id expected w w1 d
    → d.deleted_at ≡ some c.formats.env.stamp
    → names d expected ≡ true
    → (expected == []) ≡ false
    → IsDeleted c id expected w (on w1 (restore_projection c w1) λ w'. (w', ok d))
restore-IsDeleted c id expected w w1 d m s n g =
    on-Ends (Fails w) (Deletes c id expected w) w1 (restore_projection c w1) (λ w'. (w', ok d))
      (λ e h. Fails-later w w1 e m.ordered (ground (arith, restore_projection-err c w1 h)))
      (λ w' h.
        let r = restore_projection-Restores c w1 m.ordered.keyed h in
        let here : lookup id w'.documents ≡ some m.row = rw r.documents m.found in
        record {
          ordered = record {
            keyed = rw r.documents m.ordered.keyed;
            filed = rw r.versions m.ordered.filed;
          };
          mirrors = r.mirrors;
          holds = r.holds;
          stamped = s;
          names = n;
          given = g;
          document = unfold load_document in rw here (ap ok m.held);
          hidden =
              r.mirrors.active id
              ∙ (unfold shown in
                  ap (shown_row c w'.versions) here
                  ∙ shown-deleted c w'.versions m.row c.formats.env.stamp
                      (ap (λ x. x.deleted_at) m.held ∙ s));
          due = rw r.db m.due;
          others = λ j n. rw r.documents (m.others j n);
        })

delete_document-IsDeleted :
    (c : Knowledge) (id expected : Text) (w : Shelf)
    → IsOrdered w
    → IsDeleted c id expected w (delete_document c id expected w)
unfolding delete_document
delete_document-IsDeleted c id expected w o =
    on-Ends (Fails w) (Deletes c id expected w) w (load_document w id) _
      (λ e h. record { ordered = o; unchanged = λ r. refl })
      (λ d h.
        let d' = deleted c.formats.env.stamp d in
        on-Ends (Fails w) (Deletes c id expected w) w
          (check_expected d expected >> mark_deleted c id expected d' w) _
          (λ e q. record { ordered = o; unchanged = λ r. refl })
          (λ w1 q.
            let (row, found, held) = load_document-lookup w id h in
            let id_eq : d.id ≡ id = ap (λ x. x.id) (sym held) ∙ row-id w id row o found in
            restore-IsDeleted c id expected w w1 d'
              (mark_deleted-Marks c id expected d' row w w1 o (unfold deleted in id_eq) found
                (unfold check_expected in ground arith))
              (unfold deleted in refl) (unfold deleted names check_expected in ground arith)
              (unfold check_expected in ground arith)))

-- When a deletion has succeeded, the projection has no active version of the document, the row bears the
-- time of the deletion, and the cleanup of the version waits in the outbox. The active versions of
-- the projection are those that the tables show, every chunk of a shown version has its id in the
-- projection and in the keyword index, for a chunk that is shown, and no other document is touched.
pub delete_document-Deletes :
    (c : Knowledge) (id expected : Text) (w w' : Shelf) (d : Document)
    → IsOrdered w
    → delete_document c id expected w ≡ (w', ok d)
    → Deletes c id expected w w' d
delete_document-Deletes c id expected w w' d o h =
    subst (IsDeleted c id expected w) h (delete_document-IsDeleted c id expected w o)
