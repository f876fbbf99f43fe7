-- ===== src/Workspace/Documents/Mirrored.antt =====
-- The projection compared with the tables: which version of a document is active.
use oncall_agent.Prelude.{
  true, false, Option, none, some, List, [], ◌∷◌, Text, if◌then◌else◌, ◌==◌, text_eq, text_beq_iff,
  lookup, insert, keys, has, ◌≡◌, refl, arith, Option-cases, inl, inr, lookup-insert,
  lookup-eq-none_iff, ◌∙◌, sym, ap, subst,
}
use oncall_agent.Retrieval.Versions.{
  VersionChunk, ActiveVersion, restore_chunks, active_of, activate_versions,
}
use oncall_agent.Workspace.State.{ok, Result-cases}
use oncall_agent.Workspace.Documents.{
  Document, Version, DocumentRow, Shelf, Knowledge, activation, current, if_served, version_of,
  load_version, add_served, collect, sorted, restore_projection,
}
use oncall_agent.Workspace.Documents.Held.{HoldsAll, collect-Stands}
use oncall_agent.Workspace.Documents.Sorted.{IsKeyed, lookup-sorted, sorted-IsKeyed}

-- What the tables say of a document: the version it names, if it is not deleted and the version is
-- active and of the service's embedding space.
unfoldable pub shown_version : Document → Option Version → Option ActiveVersion
shown_version d none = none
shown_version d (some v) = some (activation d v)

abbrev pub served_version : Knowledge → Option Version → Option Version
served_version c none = none
served_version c (some v) = if_served c v

unfoldable pub shown_document :
    Knowledge → List (Text × Version) → Document → Option Text → Option ActiveVersion
unfolding shown_version if_served
shown_document c vs d none = none
shown_document c vs d (some id) = shown_version d (served_version c (lookup id vs))

unfoldable pub shown_row :
    Knowledge → List (Text × Version) → Option DocumentRow → Option ActiveVersion
unfolding shown_document current
shown_row c vs none = none
shown_row c vs (some row) = shown_document c vs row.document (current row.document)

unfoldable pub shown : Knowledge → Shelf → Text → Option ActiveVersion
unfolding shown_row
shown c w id = shown_row c w.versions (lookup id w.documents)

-- The active versions of the projection are those that the tables show.
pub record Mirrors (c : Knowledge) (w : Shelf) : Type 0 where
  pub versioned : w.rag.versioned ≡ true
  pub active : (id : Text) → lookup id w.rag.active ≡ shown c w id

abbrev or_else {ℓ} : {A : Type ℓ} → Option A → Option A → Option A
or_else none b = b
or_else (some a) b = some a

version_of-shown :
    (c : Knowledge) (w : Shelf) (d : Document) (cur : Option Text) (o : Option Version)
    → version_of c w cur ≡ ok o
    → shown_document c w.versions d cur ≡ shown_version d o
unfolding version_of shown_document load_version
version_of-shown c w d none o h = ground arith
version_of-shown c w d (some id) o h = elim (Option-cases (lookup id w.versions)) [
  | inl e ↦ absurd (ground arith)
  | inr (v, e) ↦ let same : if_served c v ≡ o = ground arith in rw (e, same) refl
]

-- One row more, in the map that `activate_versions` builds.
active_of-add :
    (c : Knowledge) (w : Shelf) (row : DocumentRow) (rows : List (Text × DocumentRow))
    (o : Option Version) (rest : List ActiveVersion × List VersionChunk)
    (m : List (Text × ActiveVersion)) (k : Text)
    → shown_row c w.versions (some row) ≡ shown_version row.document o
    → (row.document.id ≡ k → lookup k rows ≡ none)
    → ((m' : List (Text × ActiveVersion))
        → lookup k (active_of rest.0 m')
          ≡ or_else (shown_row c w.versions (lookup k rows)) (lookup k m'))
    → lookup k (active_of (add_served row.document o rest).0 m)
      ≡ or_else
          (shown_row c w.versions (if row.document.id == k then some row else lookup k rows))
          (lookup k m)
unfolding add_served active_of shown_row shown_version
active_of-add c w row rows none rest m k a h f =
    ground (arith, a, h, f m, text_beq_iff row.document.id k)
active_of-add c w row rows (some v) rest m k a h f =
    let act = activation row.document v in
    ground (
      arith,
      a,
      h,
      f (insert row.document.id act m),
      text_beq_iff row.document.id k,
      lookup-insert row.document.id k act m,
    )

active_of-collect :
    (c : Knowledge) (w : Shelf) (rows : List (Text × DocumentRow))
    (found : List ActiveVersion × List VersionChunk) (k : Text)
    → IsKeyed rows
    → collect c w rows ≡ ok found
    → (m : List (Text × ActiveVersion))
    → lookup k (active_of found.0 m) ≡ or_else (shown_row c w.versions (lookup k rows)) (lookup k m)
unfolding collect
active_of-collect c w [] found k r h m =
    let nothing : ([], []) ≡ found = ground arith in
    unfold shown_row active_of in rw (← nothing) refl
active_of-collect c w ((id, row) ∷ rows) found k r h m =
    let d = row.document in
    elim (Result-cases (version_of c w (current d))) [
      | inr (x, e) ↦ absurd (ground arith)
      | inl (o, e) ↦ elim (Result-cases (collect c w rows)) [
        | inr (x, q) ↦ absurd (ground arith)
        | inl (rest, q) ↦
            let made : add_served d o rest ≡ found = ground arith in
            let tail : IsKeyed rows = record { distinct = r.distinct.1; ids = r.ids.1 } in
            let id≡ : d.id ≡ id = r.ids.0 in
            rw (← made, ← id≡)
              (active_of-add c w row rows o rest m k
                (unfold shown_row in version_of-shown c w d (current d) o e)
                (λ s.
                  (lookup-eq-none_iff k rows).1
                    (subst (λ z. has z (keys rows) ≡ false) (sym id≡ ∙ s) r.distinct.0))
                (λ m'. active_of-collect c w rows rest k tail q m'))
      ]
    ]

or_else-none {ℓ} : {A : Type ℓ} (o : Option A) → or_else o none ≡ o
or_else-none none = refl
or_else-none (some a) = refl

-- What `restore_projection` leaves.
pub record Restores (c : Knowledge) (w w' : Shelf) : Type 0 where
  pub documents : w'.documents ≡ w.documents
  pub versions : w'.versions ≡ w.versions
  pub chunks : w'.chunks ≡ w.chunks
  pub results : w'.results ≡ w.results
  pub db : w'.db ≡ w.db
  pub mirrors : Mirrors c w'
  pub holds : HoldsAll c w'

pub restore_projection-Restores :
    (c : Knowledge) (w : Shelf) {w' : Shelf}
    → IsKeyed w.documents
    → restore_projection c w ≡ ok w'
    → Restores c w w'
unfolding restore_projection activate_versions shown
restore_projection-Restores c w {w'} k h = elim (Result-cases (collect c w (sorted w.documents))) [
  | inr (x, e) ↦ absurd (ground arith)
  | inl (found, e) ↦
      let rag = activate_versions found.0 (restore_chunks c.backend.unicode found.1 w.rag) in
      let made : record w { rag = rag } ≡ w' = ground arith in
      rw (← made) (record {
        documents = refl;
        versions = refl;
        chunks = refl;
        results = refl;
        db = refl;
        mirrors = record {
          versioned = refl;
          active = λ id.
              active_of-collect c w (sorted w.documents) found id (sorted-IsKeyed w.documents k) e
                []
              ∙ or_else-none _
              ∙ ap (shown_row c w.versions) (lookup-sorted w.documents id k.distinct);
        };
        holds = λ x b.
            let (s, belongs) = collect-Stands c w found w.rag k e x b in
            record {
              chunk = s.chunk;
              belongs = belongs;
              id_eq = s.id_eq;
              found = s.found;
              indexed = s.indexed;
            };
      })
]
