-- ===== src/Workspace/Documents.antt =====
-- internal/workspace/knowledge.go: the documents, their versions and chunks, and the projection that is
-- restored from them. `knowledgeMu` makes every operation a step of its own. The columns of a table
-- that the code never reads apart from `data` are left out.
mod Tests
pub mod Requests
pub mod Put
pub mod Remove
pub mod Sorted
pub mod Held
pub mod Mirrored
pub mod Ordered
pub mod Found
pub mod Published
pub mod Settled
pub mod Removed
pub mod Cleaned
pub mod Settles
pub mod Discharged
use oncall_agent.Prelude.{
  ℕ, Bool, true, false, not, ◌&&◌, ◌||◌, Option, none, some, List, [], ◌∷◌, ◌++◌, Text,
  if◌then◌else◌, ◌==◌, text_eq, text_lt, lookup, insert,
}
use oncall_agent.Retrieval.Versions.{
  VersionChunk, ActiveVersion, Rag, Backend, restore_chunks, activate_versions,
}
use oncall_agent.Workspace.State.{Db, Result, ok, err, no_rows, ◌>>=◌}
use oncall_agent.Workspace.Admission.{Formats, Answered}

pub data VersionStatus : Type 0 where
  staging active superseded : VersionStatus

pub data IndexStatus : Type 0 where
  pending indexed failed cleanup_pending removed : IndexStatus

pub record Document : Type 0 where
  pub id : Text
  pub title : Text
  pub source_kind : Text
  pub environment : Text
  pub active_version_id : Option Text
  pub deleted_at : Option Text
  pub index_status : IndexStatus

pub record Chunk : Type 0 where
  pub id : Text
  pub version_id : Text
  pub document_id : Text
  pub title : Text
  pub snippet : Text
  pub source : Text
  pub space_id : Text

pub record Version : Type 0 where
  pub id : Text
  pub document_id : Text
  pub content : Text
  pub content_sha256 : Text
  pub created_at : Text
  pub status : VersionStatus
  pub index_status : IndexStatus
  pub space_id : Text
  pub chunks : List Chunk

-- A row of `documents` under its id; `title` is in lower case, and no two rows have the same namespace
-- and title.
pub record DocumentRow : Type 0 where
  pub namespace : Text
  pub title : Text
  pub document : Document

-- The tables, under their primary keys, and the projection that is not in the database.
pub record Shelf : Type 0 where
  pub db : Db
  pub documents : List (Text × DocumentRow)
  pub versions : List (Text × Version)
  pub chunks : List (Text × Chunk)
  pub results : List Answered
  pub rag : Rag

-- What the operations take from elsewhere: the formats and the clock, encoding/json on a list of
-- strings, the vector store and the embedder, the embedding space, whether RAG is set and the source
-- ready, and whether the vector store deletes the points of a version. The calls that restore the
-- projection suppose that RAG is set.
pub record Knowledge : Type 0 where
  pub formats : Formats
  pub json_strings : List Text → Text
  pub backend : Backend
  pub space_id : Text
  pub has_rag : Bool
  pub source_ready : Bool
  pub deletes : Text → Bool

abbrev pub is_active : VersionStatus → Bool
is_active VersionStatus.active = true
is_active _ = false

abbrev pub row_document : Option DocumentRow → Result Document
row_document none = err no_rows
row_document (some row) = ok row.document

unfoldable pub load_document : Shelf → Text → Result Document
load_document w id = row_document (lookup id w.documents)

abbrev pub row_version : Option Version → Result Version
row_version none = err no_rows
row_version (some v) = ok v

unfoldable pub load_version : Shelf → Text → Result Version
load_version w id = row_version (lookup id w.versions)

-- SELECT … ORDER BY title,id, as an insertion sort.
unfoldable pub place : Text → DocumentRow → List (Text × DocumentRow) → List (Text × DocumentRow)
place id row [] = (id, row) ∷ []
place id row ((j, other) ∷ rows) =
    let later = place id row rows in
    if text_lt row.title other.title || (row.title == other.title && text_lt id j)
    then (id, row) ∷ (j, other) ∷ rows
    else (j, other) ∷ later

unfoldable pub sorted : List (Text × DocumentRow) → List (Text × DocumentRow)
unfolding place
sorted [] = []
sorted ((id, row) ∷ rows) = place id row (sorted rows)

-- The version that a document is served in, unless it is deleted.
unfoldable pub current : Document → Option Text
current d = elim d.deleted_at [ none ↦ d.active_version_id | some t ↦ none ]

unfoldable pub if_served : Knowledge → Version → Option Version
if_served c v = if is_active v.status && v.space_id == c.space_id then some v else none

unfoldable pub version_of : Knowledge → Shelf → Option Text → Result (Option Version)
unfolding if_served load_version
version_of c w none = ok none
version_of c w (some id) = load_version w id >>= λ v. ok (if_served c v)

abbrev pub activation : Document → Version → ActiveVersion
activation d v = record { doc_id = d.id; version_id = v.id; space_id = v.space_id }

abbrev pub project : Document → Version → Chunk → VersionChunk
project d v c = record {
  id = c.id;
  doc_id = d.id;
  version_id = v.id;
  title = c.title;
  snippet = c.snippet;
  source = c.source;
  space_id = c.space_id;
  environment = d.environment;
}

unfoldable pub projected : Document → Version → List Chunk → List VersionChunk
projected d v [] = []
projected d v (c ∷ cs) = project d v c ∷ projected d v cs

unfoldable pub add_served :
    Document
    → Option Version
    → List ActiveVersion × List VersionChunk
    → List ActiveVersion × List VersionChunk
unfolding projected
add_served d none rest = rest
add_served d (some v) rest = (activation d v ∷ rest.0, projected d v v.chunks ++ rest.1)

unfoldable pub collect :
    Knowledge → Shelf → List (Text × DocumentRow) → Result (List ActiveVersion × List VersionChunk)
unfolding version_of current add_served
collect c w [] = ok ([], [])
collect c w ((id, row) ∷ rows) = version_of c w (current row.document) >>= λ o.
    collect c w rows >>= λ rest. ok (add_served row.document o rest)

unfoldable pub restore_projection : Knowledge → Shelf → Result Shelf
unfolding sorted collect
restore_projection c w = collect c w (sorted w.documents) >>= λ found.
    ok (record w {
      rag = activate_versions found.0 (restore_chunks c.backend.unicode found.1 w.rag);
    })
