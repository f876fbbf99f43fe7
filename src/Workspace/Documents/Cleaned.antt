-- ===== src/Workspace/Documents/Cleaned.antt =====
-- `dispatchCleanup`: what it takes out of the projection and what it leaves.
use oncall_agent.Prelude.{
  true, false, ◌&&◌, Option, none, some, Text, ◌==◌, text_eq, text_beq_iff, lookup, keys, Distinct,
  ◌≡◌, refl, arith, Bool-cases, Option-cases, inl, inr, ◌∙◌, sym, ap,
}
use oncall_agent.Retrieval.Versions.{
  VersionChunk, ActiveVersion, Rag, is_active, is_current, eligible, delete_version,
}
use oncall_agent.Retrieval.Versions.Dropped.{
  delete_version-Drops, delete_version-none, delete_version-lookup,
}
use oncall_agent.Workspace.State.{ok}
use oncall_agent.Workspace.Documents.{
  Document, Version, DocumentRow, Shelf, Knowledge, current, is_active as is_active_status,
  activation, if_served,
}
use oncall_agent.Workspace.Documents.Remove.{names, serves, clean_projection}
use oncall_agent.Workspace.Documents.Mirrored.{
  Mirrors, shown, shown_row, shown_document, shown_version,
}
use oncall_agent.Workspace.Documents.Ordered.{IsOrdered, version-id}

-- The chunks of a version belong to one document: a version's id is made from its document's.
pub record Belongs (r : Rag) (id version : Text) : Type 0 where
  pub distinct : Distinct (keys r.chunks)
  pub owned :
      (cid : Text) (ch : VersionChunk)
      → lookup cid r.chunks ≡ some ch
      → ch.version_id ≡ version
      → ch.doc_id ≡ id

if_served-same : (c : Knowledge) (v u : Version) → if_served c v ≡ some u → v ≡ u
unfolding if_served
if_served-same c v u h = elim (Bool-cases (is_active_status v.status && v.space_id == c.space_id)) [
  | inl e ↦ ground arith
  | inr e ↦ absurd (ground arith)
]

-- The version that is served is the one that the document names.
shown_document-version :
    (c : Knowledge) (w : Shelf) (d : Document) (cur : Option Text) (act : ActiveVersion)
    → IsOrdered w
    → shown_document c w.versions d cur ≡ some act
    → cur ≡ some act.version_id
unfolding shown_document shown_version
shown_document-version c w d none act o h = absurd (ground arith)
shown_document-version c w d (some id) act o h = elim (Option-cases (lookup id w.versions)) [
  | inl e ↦ absurd (ground arith)
  | inr (v, e) ↦ elim (Option-cases (if_served c v)) [
    | inl q ↦ absurd (ground arith)
    | inr (u, q) ↦
        let same = if_served-same c v u q in
        let made : activation d u ≡ act = ground arith in
        ap some (sym (version-id w id v o e) ∙ ap (λ z. z.id) same ∙ ap (λ z. z.version_id) made)
  ]
]

serves-current :
    (d : Document) (version x : Text) → current d ≡ some x → serves d version ≡ (x == version)
unfolding current serves names
serves-current d version x h = elim (Option-cases d.deleted_at) [
  | inr (t, e) ↦ absurd (ground arith)
  | inl e ↦ elim (Option-cases d.active_version_id) [
    | inl q ↦ absurd (ground arith)
    | inr (y, q) ↦ let same : y ≡ x = ground arith in rw (e, q, same) refl
  ]
]

-- A version that its document is not served in is not the active one.
not-active :
    (c : Knowledge) (w : Shelf) (id version : Text) (row : DocumentRow) (ch : VersionChunk)
    → IsOrdered w
    → lookup id w.documents ≡ some row
    → serves row.document version ≡ false
    → ch.version_id ≡ version
    → is_active ch (shown c w id) ≡ false
unfolding shown shown_row serves is_active
not-active c w id version row ch o e s v =
    let d = row.document in
    elim (Option-cases (shown_document c w.versions d (current d))) [
      | inl q ↦ rw (e, q) refl
      | inr (act, q) ↦
          let named = shown_document-version c w d (current d) act o q in
          rw (e, q)
            (ground (
              arith,
              serves-current d version act.version_id named,
              s,
              ap (λ z. act.version_id == z) v,
            ))
    ]

-- While the projection serves what the tables say, a chunk is eligible only if its document is in the
-- tables, not deleted, and names the chunk's version as its active one.
pub eligible-serves :
    (c : Knowledge) (w : Shelf) (cid source : Text) (ch : VersionChunk)
    → IsOrdered w
    → Mirrors c w
    → lookup cid w.rag.chunks ≡ some ch
    → eligible w.rag cid source ≡ true
    → (row : DocumentRow) × (lookup ch.doc_id w.documents ≡ some row)
      × (serves row.document ch.version_id ≡ true)
unfolding eligible is_current
eligible-serves c w cid source ch o m e h =
    let on : is_active ch (shown c w ch.doc_id) ≡ true =
      ap (is_active ch) (sym (m.active ch.doc_id)) ∙ ground (arith, e) in
    elim (Option-cases (lookup ch.doc_id w.documents)) [
      | inl q ↦ absurd (unfold shown shown_row is_active in ground arith)
      | inr (row, q) ↦ elim (Bool-cases (serves row.document ch.version_id)) [
        | inl s ↦ (row, q, s)
        | inr s ↦ absurd (ground (arith, not-active c w ch.doc_id ch.version_id row ch o q s refl))
      ]
    ]

-- What a cleanup leaves.
pub record Cleans (c : Knowledge) (id version : Text) (w w' : Shelf) : Type 0 where
  pub ordered : IsOrdered w'
  pub mirrors : Mirrors c w'
  pub eligible : (cid source : Text) → eligible w'.rag cid source ≡ eligible w.rag cid source
  pub versions : w'.versions ≡ w.versions

-- What the first half leaves.
pub record Projects (w w' : Shelf) : Type 0 where
  pub documents : w'.documents ≡ w.documents
  pub versions : w'.versions ≡ w.versions
  pub active : w'.rag.active ≡ w.rag.active
  pub versioned : w'.rag.versioned ≡ w.rag.versioned
  pub db : w'.db ≡ w.db
  pub eligible : (cid source : Text) → eligible w'.rag cid source ≡ eligible w.rag cid source

eligible-delete_version :
    (c : Knowledge) (w : Shelf) (id version : Text) (row : DocumentRow)
    → IsOrdered w
    → Mirrors c w
    → Belongs w.rag id version
    → lookup id w.documents ≡ some row
    → serves row.document version ≡ false
    → (cid source : Text)
    → eligible (delete_version version w.rag) cid source ≡ eligible w.rag cid source
unfolding eligible is_current
eligible-delete_version c w id version row o m b e s cid source =
    let r' = delete_version version w.rag in
    let drops = delete_version-Drops version w.rag in
    elim (Option-cases (lookup cid w.rag.chunks)) [
      | inl q ↦ rw (q, delete_version-none version cid w.rag q, drops.versioned) refl
      | inr (ch, q) ↦
          let here = delete_version-lookup version cid w.rag ch b.distinct q in
          elim (Bool-cases (ch.version_id == version)) [
            | inr n ↦ rw (q, here, n, drops.active) refl
            | inl y ↦
                let v : ch.version_id ≡ version = (text_beq_iff ch.version_id version).0 y in
                let off : is_active ch (lookup ch.doc_id w.rag.active) ≡ false =
                  ap (is_active ch)
                    (ap (λ z. lookup z w.rag.active) (b.owned cid ch q v) ∙ m.active id)
                  ∙ not-active c w id version row ch o e s v in
                rw (q, here, y, off, drops.versioned, m.versioned) refl
          ]
    ]

pub clean_projection-Projects :
    (c : Knowledge) (w w' : Shelf) (id version : Text) (row : DocumentRow)
    → IsOrdered w
    → Mirrors c w
    → Belongs w.rag id version
    → lookup id w.documents ≡ some row
    → clean_projection c row.document version w ≡ ok w'
    → Projects w w'
unfolding clean_projection
clean_projection-Projects c w w' id version row o m b e h =
    elim (Bool-cases (serves row.document version)) [
      | inl s ↦
          let same : w ≡ w' = ground arith in
          rw (← same) (record {
            documents = refl;
            versions = refl;
            active = refl;
            versioned = refl;
            db = refl;
            eligible = λ cid source. refl;
          })
      | inr s ↦
          let made : record w { rag = delete_version version w.rag } ≡ w' = ground arith in
          let drops = delete_version-Drops version w.rag in
          rw (← made) (record {
            documents = refl;
            versions = refl;
            active = drops.active;
            versioned = drops.versioned;
            db = refl;
            eligible = eligible-delete_version c w id version row o m b e s;
          })
    ]
