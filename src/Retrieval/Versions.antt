-- ===== src/Retrieval/Versions.antt =====
-- internal/rag/versions.go: the projection of the documents' versions, which the vector store and the
-- keyword index serve from. The mutexes make every operation a step of its own.
pub mod Dropped
pub mod Restored
use oncall_agent.Prelude.{
  ℕ, suc, Bool, true, false, not, ◌&&◌, ◌||◌, Option, none, some, List, [], ◌∷◌, ◌++◌, Text, codes,
  if◌then◌else◌, ltb, nat_eq, ◌==◌, text_eq, lookup, insert, delete, length, decimal, is_empty,
}
use oncall_agent.Retrieval.Anchor.{Unicode}
use oncall_agent.Retrieval.Index.{Index, upsert, remove}
use oncall_agent.Retrieval.Chunks.{Chunk, chunk_markdown}

-- Without the embedding, which only the vector store gets.
pub record VersionChunk : Type 0 where
  pub id : Text
  pub doc_id : Text
  pub version_id : Text
  pub title : Text
  pub snippet : Text
  pub source : Text
  pub space_id : Text
  pub environment : Text

pub record ActiveVersion : Type 0 where
  pub doc_id : Text
  pub version_id : Text
  pub space_id : Text

-- The fields of `RAG` that the operations on versions read and write.
pub record Rag : Type 0 where
  pub bm : Index
  pub chunks : List (Text × VersionChunk)
  pub active : List (Text × ActiveVersion)
  pub versioned : Bool
  pub space_id : Text
  pub dimension : ℕ

-- What the operations take from elsewhere: the character classes, md5 in hexadecimal, the length of a
-- text's embedding, if the embedder answers, and whether the vector store takes a point.
pub record Backend : Type 0 where
  pub unicode : Unicode
  pub md5 : Text → Text
  pub embed : Text → Option ℕ
  pub takes : Text → Bool

unfoldable pub restore_chunks : Unicode → List VersionChunk → Rag → Rag
restore_chunks u [] r = r
restore_chunks u (c ∷ cs) r = restore_chunks u cs (record r {
  chunks = insert c.id c r.chunks;
  bm = upsert u c.id c.title c.title c.snippet c.source r.bm;
})

unfoldable pub active_of :
    List ActiveVersion → List (Text × ActiveVersion) → List (Text × ActiveVersion)
active_of [] m = m
active_of (v ∷ vs) m = active_of vs (insert v.doc_id v m)

unfoldable pub activate_versions : List ActiveVersion → Rag → Rag
unfolding active_of
activate_versions vs r = record r { versioned = true; active = active_of vs [] }

unfoldable pub is_active : VersionChunk → Option ActiveVersion → Bool
is_active c none = false
is_active c (some v) = v.version_id == c.version_id && v.space_id == c.space_id

unfoldable pub is_current : Rag → Option VersionChunk → Bool
unfolding is_active
is_current r none = not r.versioned
is_current r (some c) = is_active c (lookup c.doc_id r.active)

unfoldable pub eligible : Rag → Text → Text → Bool
unfolding is_current
eligible r id source =
    not (source == codes "incident" || source == codes "space_metadata")
    && is_current r (lookup id r.chunks)

-- The condition that the vector store puts on a point: its version, document and space, or a version
-- that no point has.
pub data Filter : Type 0 where
  any_of : List ActiveVersion → Filter
  unversioned nothing : Filter

abbrev values : List (Text × ActiveVersion) → List ActiveVersion
values [] = []
values ((k, v) ∷ m) = v ∷ values m

unfoldable pub current_filter : Rag → Filter
current_filter r =
    if r.versioned
    then if is_empty r.active then nothing else any_of (values r.active)
    else unversioned

unfoldable pub set_embedding_space : Text → ℕ → Rag → Rag
set_embedding_space space dimension r = record r { space_id = space; dimension = dimension }

-- Whether `validateSpace` has no error.
unfoldable pub valid_space : Rag → Text → ℕ → Bool
valid_space r space dimension =
    not (not (r.space_id == []) && not (r.space_id == space))
    && not (ltb 0 r.dimension && not (dimension == r.dimension))

unfoldable pub chunk_id : Backend → Text → Text → ℕ → Text
chunk_id b doc version i = b.md5 (doc ++ codes "#" ++ version ++ codes "#" ++ decimal i)

abbrev embedded : Backend → Rag → Text → Text → Option ℕ → Bool
embedded b r space id none = false
embedded b r space id (some n) = valid_space r space n && b.takes id

-- The loop of `IndexVersion`: none where an embedding, the space or the vector store fails.
unfoldable pub index_chunks :
    Backend → Rag → Text → Text → Text → Text → Text → ℕ → List Chunk → Option (List VersionChunk)
unfolding chunk_id
index_chunks b r doc version title source space i [] = some []
index_chunks b r doc version title source space i (c ∷ cs) =
    let id = chunk_id b doc version i in
    let vc : VersionChunk = record {
      id = id;
      doc_id = doc;
      version_id = version;
      title = title;
      snippet = c.snippet;
      source = source;
      space_id = space;
      environment = [];
    } in
    let rest = index_chunks b r doc version title source space (suc i) cs in
    if embedded b r space id (b.embed (c.title ++ codes "\n" ++ c.snippet))
    then add_chunk vc rest
    else none
  where
    add_chunk : VersionChunk → Option (List VersionChunk) → Option (List VersionChunk)
    add_chunk c none = none
    add_chunk c (some cs) = some (c ∷ cs)

unfoldable pub indexed_with :
    Unicode → Option (List VersionChunk) → Rag → Rag × Option (List VersionChunk)
unfolding restore_chunks
indexed_with u none r = (r, none)
indexed_with u (some cs) r = (restore_chunks u cs r, some cs)

unfoldable pub index_version :
    Backend → Text → Text → Text → Text → Text → Text → Rag → Rag × Option (List VersionChunk)
unfolding index_chunks chunk_markdown indexed_with
index_version b doc version title md source space r =
    let cs = chunk_markdown title md in
    if doc == [] || version == [] || space == [] || ltb 512 (length cs)
    then (r, none)
    else indexed_with b.unicode (index_chunks b r doc version title source space 0 cs) r

abbrev pub of_version : Text → List (Text × VersionChunk) → List (Text × VersionChunk)
of_version version [] = []
of_version version ((id, c) ∷ m) =
    if c.version_id == version then (id, c) ∷ of_version version m else of_version version m

-- The loop of `DeleteVersionWithContext`, over the chunks of the version.
unfoldable pub drop_chunks : List (Text × VersionChunk) → Rag → Rag
drop_chunks [] r = r
drop_chunks ((id, c) ∷ m) r =
    drop_chunks m (record r { bm = remove id r.bm; chunks = delete id r.chunks })

-- After the vector store has deleted the version's points.
unfoldable pub delete_version : Text → Rag → Rag
unfolding drop_chunks
delete_version version r = drop_chunks (of_version version r.chunks) r
