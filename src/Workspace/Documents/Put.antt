-- ===== src/Workspace/Documents/Put.antt =====
-- `PutDocument` of internal/workspace/knowledge.go. Its statements before the transaction stay when a
-- later one fails, so an operation has the tables it leaves beside its result.
use oncall_agent.Prelude.{
  not, ◌&&◌, ◌||◌, Option, none, some, List, [], ◌∷◌, ◌++◌, Text, codes, if◌then◌else◌, ◌==◌,
  text_eq, lookup, insert, keep,
}
use oncall_agent.Retrieval.Versions.{VersionChunk, index_version}
use oncall_agent.Workspace.State.{
  on, Result, ok, err, constraint, unavailable, index_failed, guard, ◌>>=◌, ◌>>◌,
}
use oncall_agent.Workspace.Tables.{stable_id}
use oncall_agent.Workspace.Admission.{Answered}
use oncall_agent.Workspace.Admission.Manual.{find_result}
use oncall_agent.Workspace.Documents.{
  VersionStatus, IndexStatus, Document, Chunk, Version, DocumentRow, Shelf, Knowledge, load_version,
  restore_projection,
}
use oncall_agent.Workspace.Documents.Requests.{
  Request, Draft, prepare, replay, title_taken, is_set, find_document, unchanged,
}

-- INSERT OR IGNORE of the key's answer, if there is a key.
unfoldable pub remember : Draft → Text → List Answered → List Answered
unfolding find_result
remember t version results =
    if t.key == [] || is_set (find_result t.scope t.key results)
    then results
    else results
      ++ record { scope = t.scope; key = t.key; body_hash = t.body_hash; result_id = version } ∷ []

-- INSERT OR REPLACE of the key's answer.
unfoldable pub answer : Draft → Text → List Answered → List Answered
answer t version results =
    if t.key == []
    then results
    else keep (λ a. not (a.scope == t.scope && a.key == t.key)) results
      ++ record { scope = t.scope; key = t.key; body_hash = t.body_hash; result_id = version } ∷ []

unfoldable pub version_id : Knowledge → Draft → Text
unfolding stable_id
version_id c t =
    let env = c.formats.env in
    let described = env.hash (c.json_strings (t.title ∷ t.environment ∷ [])) in
    stable_id env (codes "ver_")
      (t.id ++ codes ":" ++ env.hash t.content ++ codes ":" ++ described ++ codes ":" ++ c.space_id)

-- An earlier version of the id keeps its content, chunks and time.
unfoldable pub staged : Knowledge → Draft → Text → Option Version → Version
staged c t id none = record {
  id = id;
  document_id = t.id;
  content = t.content;
  content_sha256 = c.formats.env.hash t.content;
  created_at = c.formats.env.stamp;
  status = VersionStatus.staging;
  index_status = IndexStatus.pending;
  space_id = c.space_id;
  chunks = [];
}
staged c t id (some prior) = record prior {
  status = VersionStatus.staging;
  index_status = IndexStatus.pending;
}

-- UPDATE document_versions SET data=? WHERE id=?
abbrev pub save_version : Version → Option Version → List (Text × Version) → List (Text × Version)
save_version v none versions = versions
save_version v (some old) versions = insert v.id v versions

unfoldable pub update_version : Version → Shelf → Shelf
update_version v w = record w { versions = save_version v (lookup v.id w.versions) w.versions }

unfoldable pub version_chunks : Draft → Knowledge → Text → List VersionChunk → List Chunk
version_chunks t c id [] = []
version_chunks t c id (vc ∷ vcs) =
    record {
      id = vc.id;
      version_id = id;
      document_id = t.id;
      title = t.title;
      snippet = vc.snippet;
      source = t.source;
      space_id = c.space_id;
    }
    ∷ version_chunks t c id vcs

-- INSERT OR IGNORE of the chunks.
unfoldable pub put_chunks : List Chunk → List (Text × Chunk) → List (Text × Chunk)
put_chunks [] table = table
put_chunks (c ∷ cs) table =
    let here = lookup c.id table in
    put_chunks cs (if is_set here then table else insert c.id c table)

unfoldable pub supersede : Option Text → Shelf → Result Shelf
unfolding load_version update_version
supersede none w = ok w
supersede (some id) w = load_version w id >>= λ old.
    ok (update_version (record old { status = VersionStatus.superseded }) w)

unfoldable pub published_document : Draft → Text → Document → Document
published_document t id d = record d {
  active_version_id = some id;
  deleted_at = none;
  index_status = IndexStatus.indexed;
  title = t.title;
  environment = t.environment;
}

-- UPDATE documents SET title=?,data=? WHERE id=?
unfoldable pub save_titled :
    Text
    → Text
    → Document
    → Option DocumentRow
    → List (Text × DocumentRow)
    → Result (List (Text × DocumentRow))
unfolding title_taken
save_titled id title d none rows = ok rows
save_titled id title d (some row) rows =
    guard (not (title_taken id row.namespace title rows)) constraint
    >> ok (insert id (record row { title = title; document = d }) rows)

unfoldable pub published_version : List Chunk → Version → Version
published_version chunks v = record v {
  chunks = chunks;
  status = VersionStatus.active;
  index_status = IndexStatus.indexed;
}

-- The transaction that makes `v` the active version of `d`; `old` is the version before.
unfoldable pub publish :
    Knowledge → Draft → Text → Option Text → Document → Version → Shelf → Result Shelf
unfolding supersede update_version save_titled put_chunks answer
publish c t id old d v w = supersede old w >>= λ w1.
    save_titled t.id (c.formats.to_lower t.title) d (lookup t.id w1.documents) w1.documents
    >>= λ rows. ok (record (update_version v w1) {
      documents = rows;
      chunks = put_chunks v.chunks w1.chunks;
      results = answer t id w1.results;
    })

unfoldable pub restored :
    Knowledge → Shelf → Document × Version → Shelf × Result (Document × Version)
unfolding on restore_projection
restored c w made = on w (restore_projection c w) λ w'. (w', ok made)

unfoldable pub stage : Knowledge → Draft → Shelf → Shelf × Version
unfolding version_id staged remember
stage c t w =
    let id = version_id c t in
    let v = staged c t id (lookup id w.versions) in
    (record w { versions = insert v.id v w.versions; results = remember t id w.results }, v)

unfoldable pub publish_indexed :
    Knowledge
    → Draft
    → Document
    → Version
    → Shelf
    → Option (List VersionChunk)
    → Shelf × Result (Document × Version)
unfolding update_version version_chunks published_document published_version publish on restored
    version_id
publish_indexed c t d v w none =
    (update_version (record v { index_status = IndexStatus.failed }) w, err index_failed)
publish_indexed c t d v w (some cs) =
    let id = version_id c t in
    let d' = published_document t id d in
    let v' = published_version (version_chunks t c id cs) v in
    on w (publish c t id d.active_version_id d' v' w) λ w'. restored c w' (d', v')

-- From the staging of the version on.
unfoldable pub put_version :
    Knowledge → Draft → Document → Shelf → Shelf × Result (Document × Version)
unfolding stage publish_indexed index_version version_id
put_version c t d w =
    let w1 = (stage c t w).0 in
    let v = (stage c t w).1 in
    let id = version_id c t in
    let made = index_version c.backend t.id id t.title t.content t.source c.space_id w1.rag in
    let indexed = publish_indexed c t d v (record w1 { rag = made.0 }) made.1 in
    if not c.has_rag || not c.source_ready then (w1, err unavailable) else indexed

unfoldable pub keep_or_put :
    Knowledge → Draft → Document → Shelf → Option Version → Shelf × Result (Document × Version)
unfolding put_version restored remember
keep_or_put c t d w none = put_version c t d w
keep_or_put c t d w (some old) =
    restored c (record w { results = remember t old.id w.results }) (d, old)

unfoldable pub put_found :
    Knowledge → Draft → Shelf → Document → Shelf × Result (Document × Version)
unfolding unchanged keep_or_put on
put_found c t w d = on w (unchanged c t w d d.active_version_id) (keep_or_put c t d w)

unfoldable pub replay_or_put :
    Knowledge → Draft → Shelf → Option (Document × Version) → Shelf × Result (Document × Version)
unfolding find_document put_found on restored
replay_or_put c t w (some made) = restored c w made
replay_or_put c t w none =
    on w (find_document c t w (lookup t.id w.documents)) λ found. put_found c t found.0 found.1

unfoldable pub put_document : Knowledge → Request → Shelf → Shelf × Result (Document × Version)
unfolding prepare replay replay_or_put on
put_document c q w = on w (prepare c q) λ t. on w (replay t w) (replay_or_put c t w)
