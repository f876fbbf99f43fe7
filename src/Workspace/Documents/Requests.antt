-- ===== src/Workspace/Documents/Requests.antt =====
-- The first half of `PutDocument` of internal/workspace/knowledge.go: the request, the answer of an
-- earlier one, and the document that it is about.
use oncall_agent.Prelude.{
  ◌*◌, Bool, true, false, not, ◌&&◌, ◌||◌, Option, none, some, List, [], ◌∷◌, ◌++◌, Text, codes,
  if◌then◌else◌, ltb, ◌==◌, text_eq, insert, any, trim_space,
}
use oncall_agent.Workspace.State.{Result, ok, invalid, conflict, constraint, guard, ◌>>=◌, ◌>>◌}
use oncall_agent.Workspace.Tables.{stable_id}
use oncall_agent.Workspace.Admission.{Answered}
use oncall_agent.Workspace.Admission.Manual.{find_result}
use oncall_agent.Workspace.Documents.{
  VersionStatus, IndexStatus, Document, Version, DocumentRow, Shelf, Knowledge, load_document,
  load_version,
}

pub record Request : Type 0 where
  pub id : Text
  pub title : Text
  pub content : Text
  pub source : Text
  pub environment : Text
  pub expected : Text
  pub key : Text

-- The request with what is computed from it before the tables are read.
pub record Draft : Type 0 where
  pub id : Text
  pub title : Text
  pub content : Text
  pub source : Text
  pub environment : Text
  pub expected : Text
  pub key : Text
  pub namespace : Text
  pub scope : Text
  pub body_hash : Text

unfoldable pub content_ok : Knowledge → Text → Text → Bool
content_ok c title content = not (
    title == []
    || ltb 512 (c.formats.byte_length title)
    || trim_space content == []
    || ltb (512 * 1024) (c.formats.byte_length content))

unfoldable pub draft_of : Knowledge → Request → Draft
unfolding stable_id
draft_of c q =
    let env = c.formats.env in
    let title = trim_space q.title in
    let environment = if q.environment == [] then codes "unknown" else q.environment in
    let namespace = codes "local:" ++ q.source in
    let named = stable_id env (codes "doc_") (namespace ++ codes ":" ++ c.formats.to_lower title) in
    let id = if q.id == [] then named else q.id in
    record {
      id = id;
      title = title;
      content = q.content;
      source = q.source;
      environment = environment;
      expected = q.expected;
      key = q.key;
      namespace = namespace;
      scope = if q.id == [] then codes "document:create" else codes "document:" ++ id;
      body_hash = env.hash (c.json_strings (id ∷ title ∷ q.content ∷ q.source ∷ environment ∷ []));
    }

unfoldable pub prepare : Knowledge → Request → Result Draft
unfolding content_ok draft_of
prepare c q =
    guard (content_ok c (trim_space q.title) q.content) invalid
    >> guard (q.source == codes "upload" || q.source == codes "demo") invalid
    >> ok (draft_of c q)

-- The answer of an earlier request under the key, if its version was published.
unfoldable pub is_published : Version → Bool
is_published v = is_shown v.status && is_indexed v.index_status
  where
    is_shown : VersionStatus → Bool
    is_shown VersionStatus.staging = false
    is_shown _ = true

    is_indexed : IndexStatus → Bool
    is_indexed IndexStatus.indexed = true
    is_indexed _ = false

unfoldable pub earlier_put : Draft → Shelf → Option Answered → Result (Option (Document × Version))
unfolding is_published load_document load_version
earlier_put t w none = ok none
earlier_put t w (some a) =
    guard (a.body_hash == t.body_hash) conflict >> load_document w t.id >>= λ d.
    load_version w a.result_id >>= λ v. ok (if is_published v then some (d, v) else none)

unfoldable pub replay : Draft → Shelf → Result (Option (Document × Version))
unfolding earlier_put find_result
replay t w = if t.key == [] then ok none else earlier_put t w (find_result t.scope t.key w.results)

-- Whether a row other than that of the id has the namespace and the title.
unfoldable pub title_taken : Text → Text → Text → List (Text × DocumentRow) → Bool
title_taken id namespace title rows =
    any (λ e. not (e.0 == id) && (e.1.namespace == namespace && e.1.title == title)) rows

unfoldable pub new_document : Draft → Document
new_document t = record {
  id = t.id;
  title = t.title;
  source_kind = t.source;
  environment = t.environment;
  active_version_id = none;
  deleted_at = none;
  index_status = IndexStatus.pending;
}

unfoldable pub insert_document : Knowledge → Draft → Shelf → Result (Shelf × Document)
unfolding title_taken new_document
insert_document c t w =
    let title = c.formats.to_lower t.title in
    let d = new_document t in
    let row : DocumentRow = record { namespace = t.namespace; title = title; document = d } in
    guard (not (title_taken t.id t.namespace title w.documents)) constraint
    >> ok (record w { documents = insert t.id row w.documents }, d)

abbrev is_not : Text → Option Text → Bool
is_not s none = true
is_not s (some u) = not (s == u)

abbrev pub is_set {ℓ} : {A : Type ℓ} → Option A → Bool
is_set none = false
is_set (some a) = true

-- A request without an expected version may repeat the active one only.
unfoldable pub same_content : Knowledge → Draft → Shelf → Document → Option Text → Result (Unit {0})
unfolding load_version
same_content c t w d none = ok tt
same_content c t w d (some id) = load_version w id >>= λ old.
    guard
      (old.content_sha256 == c.formats.env.hash t.content
        && (d.title == t.title && (d.source_kind == t.source && d.environment == t.environment)))
      conflict

unfoldable pub check_document : Knowledge → Draft → Shelf → Document → Result (Unit {0})
unfolding same_content
check_document c t w d =
    let repeated = same_content c t w d d.active_version_id in
    guard (d.source_kind == t.source) conflict
    >> guard (t.expected == [] || not (is_not t.expected d.active_version_id)) conflict
    >> (if t.expected == [] && not (t.id == []) then repeated else ok tt)

unfoldable pub find_document :
    Knowledge → Draft → Shelf → Option DocumentRow → Result (Shelf × Document)
unfolding insert_document check_document
find_document c t w none = guard (t.expected == []) conflict >> insert_document c t w
find_document c t w (some row) = check_document c t w row.document >> ok (w, row.document)

unfoldable pub is_unchanged : Knowledge → Draft → Document → Version → Bool
is_unchanged c t d old =
    old.content_sha256 == c.formats.env.hash t.content
    && (not (is_set d.deleted_at) && (d.title == t.title && d.environment == t.environment))

-- The active version, if the request asks for what it has already.
unfoldable pub unchanged :
    Knowledge → Draft → Shelf → Document → Option Text → Result (Option Version)
unfolding is_unchanged load_version
unchanged c t w d none = ok none
unchanged c t w d (some id) =
    load_version w id >>= λ old. ok (if is_unchanged c t d old then some old else none)
