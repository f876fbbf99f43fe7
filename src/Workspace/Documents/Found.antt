-- ===== src/Workspace/Documents/Found.antt =====
-- The result of `PutDocument`, what the projection's restoring makes of it, and the document that the
-- operation goes on with.
use oncall_agent.Prelude.{
  true, false, none, some, [], Text, ◌==◌, text_eq, beq_refl, lookup, insert, ◌≡◌, refl, arith,
  Option-cases, inl, inr, lookup-insert, ◌∙◌, sym, ap,
}
use oncall_agent.Workspace.State.{Error, Result, ok}
use oncall_agent.Workspace.Documents.{
  Document, Version, DocumentRow, Shelf, Knowledge, load_version, load_document, restore_projection,
}
use oncall_agent.Workspace.Documents.Requests.{Draft, insert_document, find_document, new_document}
use oncall_agent.Workspace.Documents.Put.{restored}
use oncall_agent.Workspace.Documents.Held.{HoldsAll}
use oncall_agent.Workspace.Documents.Mirrored.{Mirrors, restore_projection-Restores}
use oncall_agent.Workspace.Documents.Ordered.{
  IsOrdered, is_refusal, Ends, on-Ends, insert-IsKeyed, row-id, restore_projection-err,
}

-- With an error, the tables are still in order, and a refusal has written nothing.
pub record Fails (w w' : Shelf) (e : Error) : Type 0 where
  pub ordered : IsOrdered w'
  pub unchanged : is_refusal e ≡ true → w' ≡ w

-- The document is live in the version.
abbrev pub IsNamed : Document → Version → Type 0
IsNamed d v = (d.active_version_id ≡ some v.id) × (d.deleted_at ≡ none)

-- With a result, the projection serves what the tables say, and the document and the version are
-- those of the tables.
pub record Puts (c : Knowledge) (t : Draft) (w w' : Shelf) (d : Document) (v : Version)
    : Type 0 where
  pub ordered : IsOrdered w'
  pub mirrors : Mirrors c w'
  pub holds : HoldsAll c w'
  pub id_eq : d.id ≡ t.id
  pub named : t.key ≡ [] → IsNamed d v
  pub document : load_document w' t.id ≡ ok d
  pub version : load_version w' v.id ≡ ok v
  pub others : (j : Text) → (t.id == j) ≡ false → lookup j w'.documents ≡ lookup j w.documents

abbrev pub PutsBoth : Knowledge → Draft → Shelf → Shelf → Document × Version → Type 0
PutsBoth c t w w' made = Puts c t w w' made.0 made.1

abbrev pub Outcome : Knowledge → Draft → Shelf → Shelf × Result (Document × Version) → Type 0
Outcome c t w = Ends (Fails w) (PutsBoth c t w)

-- The tables before the projection is restored.
pub record IsReady (t : Draft) (w w' : Shelf) (d : Document) (v : Version) : Type 0 where
  pub ordered : IsOrdered w'
  pub id_eq : d.id ≡ t.id
  pub named : t.key ≡ [] → IsNamed d v
  pub document : load_document w' t.id ≡ ok d
  pub version : load_version w' v.id ≡ ok v
  pub others : (j : Text) → (t.id == j) ≡ false → lookup j w'.documents ≡ lookup j w.documents

pub restored-Outcome :
    (c : Knowledge) (t : Draft) (w w1 : Shelf) (d : Document) (v : Version)
    → IsReady t w w1 d v
    → Outcome c t w (restored c w1 (d, v))
unfolding restored load_document load_version
restored-Outcome c t w w1 d v k =
    on-Ends (Fails w) (PutsBoth c t w) w1 (restore_projection c w1) (λ w'. (w', ok (d, v)))
      (λ e h. record {
        ordered = k.ordered;
        unchanged = λ r. absurd (ground (arith, restore_projection-err c w1 h));
      })
      (λ w' h.
        let r = restore_projection-Restores c w1 k.ordered.keyed h in
        record {
          ordered = record {
            keyed = rw r.documents k.ordered.keyed;
            filed = rw r.versions k.ordered.filed;
          };
          mirrors = r.mirrors;
          holds = r.holds;
          id_eq = k.id_eq;
          named = k.named;
          document = rw r.documents k.document;
          version = rw r.versions k.version;
          others = λ j n. rw r.documents (k.others j n);
        })

-- The document that the operation goes on with.
pub record Found (t : Draft) (w w1 : Shelf) (d : Document) : Type 0 where
  pub ordered : IsOrdered w1
  pub row : DocumentRow
  pub found : lookup t.id w1.documents ≡ some row
  pub held : row.document ≡ d
  pub id_eq : d.id ≡ t.id
  pub others : (j : Text) → (t.id == j) ≡ false → lookup j w1.documents ≡ lookup j w.documents

insert_document-Found :
    (c : Knowledge) (t : Draft) (w w1 : Shelf) (d : Document)
    → IsOrdered w
    → insert_document c t w ≡ ok (w1, d)
    → Found t w w1 d
unfolding insert_document
insert_document-Found c t w w1 d o h =
    let made = new_document t in
    let row : DocumentRow = record {
      namespace = t.namespace;
      title = c.formats.to_lower t.title;
      document = made;
    } in
    let written : record w { documents = insert t.id row w.documents } ≡ w1 = ground arith in
    let new : made ≡ d = ground arith in
    rw (← written, ← new)
      (record {
        ordered = record {
          keyed = insert-IsKeyed t.id row w.documents (unfold new_document in refl) o.keyed;
          filed = o.filed;
        };
        row = row;
        found = rw (lookup-insert t.id t.id row w.documents, beq_refl t.id) refl;
        held = refl;
        id_eq = unfold new_document in refl;
        others = λ j n. rw (lookup-insert t.id j row w.documents, n) refl;
      })

pub find_document-Found :
    (c : Knowledge) (t : Draft) (w w1 : Shelf) (d : Document)
    → IsOrdered w
    → find_document c t w (lookup t.id w.documents) ≡ ok (w1, d)
    → Found t w w1 d
unfolding find_document
find_document-Found c t w w1 d o h = elim (Option-cases (lookup t.id w.documents)) [
  | inl e ↦ insert_document-Found c t w w1 d o (ground arith)
  | inr (row, e) ↦
      let same : w ≡ w1 = ground arith in
      let held : row.document ≡ d = ground arith in
      rw (← same) (record {
        ordered = o;
        row = row;
        found = e;
        held = held;
        id_eq = ap (λ x. x.id) (sym held) ∙ row-id w t.id row o e;
        others = λ j n. refl;
      })
]

pub IsReady-of_found :
    (t : Draft) (w w1 w2 : Shelf) (d d' : Document) (v : Version)
    → Found t w w1 d
    → IsOrdered w2
    → d' ≡ d
    → w2.documents ≡ w1.documents
    → lookup v.id w2.versions ≡ some v
    → IsNamed d' v
    → IsReady t w w2 d' v
unfolding load_document load_version
IsReady-of_found t w w1 w2 d d' v f o same e q k = record {
  ordered = o;
  id_eq = ap (λ x. x.id) same ∙ f.id_eq;
  named = λ key. k;
  document = rw (e, f.found) (ap ok (f.held ∙ sym same));
  version = rw q refl;
  others = λ j n. rw e (f.others j n);
}

-- An operation that fails after the first statement has not refused the request.
pub Fails-later : (w w1 : Shelf) (e : Error) → IsOrdered w1 → is_refusal e ≡ false → Fails w w1 e
Fails-later w w1 e o f = record { ordered = o; unchanged = λ r. absurd (ground arith) }
