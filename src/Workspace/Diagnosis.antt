-- ===== src/Workspace/Diagnosis.antt =====
-- internal/workspace/diagnosis.go: whether a hit is eligible, and the transactions that record the
-- retrieval of an incident and cite its eligible hits.
mod Tests
pub mod Runs
pub mod Process
pub mod Eligible
pub mod Fences
pub mod Qualified
pub mod Released
use oncall_agent.Prelude.{
  ℕ, suc, Bool, true, false, not, ◌&&◌, ◌||◌, Option, none, some, List, [], ◌∷◌, ◌++◌, Text, codes,
  if◌then◌else◌, ◌==◌, text_eq, lookup, insert, any, trim_space, contains, decimal,
}
use oncall_agent.Workspace.State.{
  Stage, Kind, Run, ApiError, Evidence, CitationRow, HitRow, Db, Result, ok, err, no_rows,
  constraint, unavailable, guard, ◌>>=◌, ◌>>◌,
}
use oncall_agent.Workspace.Tables.{Env, stable_id, load_run, save_run, add_event, owned}
use oncall_agent.Workspace.Admission.{Incident}
use oncall_agent.Workspace.Documents.{Document, Chunk, Shelf, load_document}

-- What the code reads of `rag.Result`.
pub record Hit : Type 0 where
  pub chunk_id : Text
  pub version_id : Text
  pub doc_id : Text
  pub doc : Text
  pub source : Text

abbrev no_chunk : Chunk
no_chunk = record {
  id = [];
  version_id = [];
  document_id = [];
  title = [];
  snippet = [];
  source = [];
  space_id = [];
}

abbrev row_chunk : Option Chunk → Result Chunk
row_chunk none = err no_rows
row_chunk (some c) = ok c

-- Whether the chunk is of the version that the live document names, in the embedding space.
unfoldable pub is_served : Text → Hit → Chunk → Document → Bool
is_served space h c d =
    live d.deleted_at
    && names d.active_version_id
    && (c.version_id == h.version_id && c.space_id == space)
  where
    live : Option Text → Bool
    live none = true
    live (some t) = false

    names : Option Text → Bool
    names none = false
    names (some id) = id == h.version_id

unfoldable pub applies : Incident → Document → Bool
applies inc d =
    d.environment == codes "unknown"
    || d.environment == codes "all"
    || d.environment == inc.environment

-- The name of the alert, in lower case, stands in the chunk.
unfoldable pub anchored_in : (Text → Text) → Incident → Chunk → Bool
anchored_in to_lower inc c =
    let anchor = to_lower (trim_space inc.name) in
    not (anchor == []) && contains (to_lower (c.title ++ codes "\n" ++ c.snippet)) anchor

unfoldable pub is_qualified : (Text → Text) → Text → Incident → Hit → Chunk → Document → Bool
unfolding is_served applies anchored_in
is_qualified to_lower space inc h c d =
    is_served space h c d && (applies inc d && anchored_in to_lower inc c)

unfoldable pub qualifies : (Text → Text) → Text → Shelf → Incident → Hit → Result (Chunk × Bool)
unfolding is_qualified load_document
qualifies to_lower space w inc h =
    let looked = row_chunk (lookup h.chunk_id w.chunks) >>= λ c.
    load_document w h.doc_id >>= λ d. ok (c, is_qualified to_lower space inc h c d) in
    if h.chunk_id == [] || h.version_id == [] || h.doc_id == [] || h.source == codes "incident"
    then ok (no_chunk, false)
    else looked

unfoldable pub retrieval_id : Env → Run → Text → Text
unfolding stable_id
retrieval_id env r id =
    stable_id env (codes "ret_") (r.id ++ codes ":" ++ decimal r.current_attempt ++ codes ":" ++ id)

unfoldable pub source_error : Text → ApiError
source_error message = record {
  code = codes "source_unavailable";
  message = message;
  retryable = true;
}

unfoldable pub retrieval_evidence : Env → Text → Run → Text → Incident → Bool → Evidence
unfolding retrieval_id
retrieval_evidence env space r id inc found = record {
  kind = codes "retrieval";
  source_kind = codes "system";
  source_ref = retrieval_id env r id;
  recorded_at = env.stamp;
  observed_at = none;
  document_id = none;
  version_id = none;
  chunk_id = none;
  snippet = none;
  run_id = some r.id;
  metadata =
      (codes "query", inc.name)
      ∷ (codes "status", if found then codes "succeeded" else codes "source_unavailable")
      ∷ (codes "retrieval_config_version", codes "lexical-anchor-v1")
      ∷ (codes "embedding_space_id", space)
      ∷ (codes "attempt", decimal r.current_attempt)
      ∷ (codes "incident_id", id)
      ∷ (codes "run_id", r.id)
      ∷ [];
}

abbrev is_none {ℓ} : {A : Type ℓ} → Option A → Bool
is_none none = true
is_none (some a) = false

-- The transaction that records a traversal, found or failed.
unfoldable pub record_retrieval : Env → Text → Run → Text → Incident → Bool → ℕ → Db → Result Db
unfolding retrieval_evidence retrieval_id source_error
record_retrieval env space r id inc found ms db =
    let ret = retrieval_id env r id in
    let ev = retrieval_evidence env space r id inc found in
    let kind = if found then Kind.succeeded else Kind.failed in
    let ae = if found then none else some (source_error (codes "知识检索源不可用")) in
    let db' = record db {
      retrievals = insert ret ev db.retrievals;
      evidence = insert ret ev db.evidence;
    } in
    owned db r
    >> guard (is_none (lookup ret db.retrievals) && is_none (lookup ret db.evidence)) constraint
    >> ok (add_event env r Stage.retrieval kind (some ms) (some ret) ae db')

-- INSERT OR IGNORE INTO retrieval_hits
unfoldable pub put_hit : Text → Text → ℕ → Bool → Db → Db
put_hit ret chunk rank eligible db =
    if any (λ (x : HitRow). x.retrieval_id == ret && x.chunk_id == chunk) db.retrieval_hits
    then db
    else record db {
      retrieval_hits =
          db.retrieval_hits
          ++ record { retrieval_id = ret; chunk_id = chunk; rank = rank; eligibility = eligible }
            ∷ [];
    }

unfoldable pub chunk_evidence : Env → Run → Text → Text → ℕ → Chunk → Evidence
chunk_evidence env r id ret rank c = record {
  kind = codes "document_chunk";
  source_kind = c.source;
  source_ref = c.id;
  recorded_at = env.stamp;
  observed_at = none;
  document_id = some c.document_id;
  version_id = some c.version_id;
  chunk_id = some c.id;
  snippet = some c.snippet;
  run_id = some r.id;
  metadata =
      (codes "snippet_sha256", env.hash c.snippet)
      ∷ (codes "retrieval_id", ret)
      ∷ (codes "attempt", decimal r.current_attempt)
      ∷ (codes "run_id", r.id)
      ∷ (codes "incident_id", id)
      ∷ (codes "verification", codes "unverified")
      ∷ (codes "eligibility_policy", codes "lexical-anchor-v1")
      ∷ (codes "rank", decimal rank)
      ∷ [];
}

-- INSERT OR IGNORE INTO evidence
abbrev pub put_if_new :
    Text → Evidence → Option Evidence → List (Text × Evidence) → List (Text × Evidence)
put_if_new id ev none rows = insert id ev rows
put_if_new id ev (some old) rows = rows

-- INSERT OR IGNORE INTO report_citations
unfoldable pub put_citation : CitationRow → List CitationRow → List CitationRow
put_citation x rows =
    if any
      (λ (y : CitationRow).
        (y.run_id == x.run_id && (y.incident_id == x.incident_id && y.chunk_id == x.chunk_id))
        || y.evidence_id == x.evidence_id)
      rows
    then rows
    else rows ++ x ∷ []

unfoldable pub cited_run : Text → Run → Run
cited_run evidence current = record current {
  citation_ids = current.citation_ids ++ evidence ∷ [];
  revision = suc current.revision;
}

unfoldable pub cite_chunk : Env → Run → Text → Text → ℕ → Chunk → Db → Result Db
unfolding stable_id chunk_evidence put_citation cited_run
cite_chunk env r id ret rank c db =
    let key =
      stable_id env (codes "chunk_")
        (r.id ++ codes ":" ++ decimal r.current_attempt ++ codes ":" ++ id ++ codes ":" ++ c.id) in
    let row : CitationRow = record {
      run_id = r.id;
      incident_id = id;
      retrieval_id = ret;
      chunk_id = c.id;
      evidence_id = key;
    } in
    let db' = record db {
      evidence =
          put_if_new key (chunk_evidence env r id ret rank c) (lookup key db.evidence) db.evidence;
      citations = put_citation row db.citations;
    } in
    load_run db' r.id >>= λ current. ok (save_run (cited_run key current) db')

-- The transaction that records a hit, and cites it if it is eligible.
unfoldable pub record_hit : Env → Run → Text → ℕ → Chunk → Bool → Db → Result Db
unfolding retrieval_id put_hit cite_chunk
record_hit env r id rank c eligible db =
    let ret = retrieval_id env r id in
    let seen = put_hit ret c.id rank eligible db in
    let cited = cite_chunk env r id ret rank c seen in
    owned db r >> (if eligible then cited else ok seen)
