-- ===== src/Workspace/Documents/Remove.antt =====
-- `DeleteDocument` and `dispatchCleanup` of internal/workspace/knowledge.go.
use oncall_agent.Prelude.{
  Bool, true, false, not, ◌&&◌, ◌||◌, Option, none, some, List, [], ◌++◌, Text, codes,
  if◌then◌else◌, ◌==◌, text_eq, lookup, insert,
}
use oncall_agent.Retrieval.Versions.{delete_version}
use oncall_agent.Workspace.State.{
  OutboxKind, OutboxState, OutboxRow, Payload, Db, Result, ok, err, bad_payload, invalid, conflict,
  constraint, unavailable, send_failed, guard, ◌>>=◌, ◌>>◌, on,
}
use oncall_agent.Workspace.Tables.{Env, stable_id}
use oncall_agent.Workspace.Dispatch.{sent_row, update_row}
use oncall_agent.Workspace.Documents.{
  IndexStatus, Document, DocumentRow, Shelf, Knowledge, load_document, restore_projection,
}

-- UPDATE documents SET data=? WHERE id=?
abbrev pub save_data :
    Text → Document → Option DocumentRow → List (Text × DocumentRow) → List (Text × DocumentRow)
save_data id d none rows = rows
save_data id d (some row) rows = insert id (record row { document = d }) rows

unfoldable pub update_document : Text → Document → Shelf → Shelf
update_document id d w = record w { documents = save_data id d (lookup id w.documents) w.documents }

-- Whether the version is the one that the document names.
unfoldable pub names : Document → Text → Bool
names d version = elim d.active_version_id [ none ↦ false | some id ↦ id == version ]

unfoldable pub deleted : Text → Document → Document
deleted stamp d = record d { deleted_at = some stamp; index_status = IndexStatus.cleanup_pending }

abbrev pub none_set {ℓ} : {A : Type ℓ} → Option A → Bool
none_set none = true
none_set (some a) = false

unfoldable pub cleanup_id : Env → Text → Text → Text
unfolding stable_id
cleanup_id env id version =
    stable_id env (codes "cleanup_") (id ++ codes ":" ++ version ++ codes ":" ++ env.stamp)

unfoldable pub cleanup_row : Env → Text → Text → OutboxRow
cleanup_row env id version = record {
  kind = OutboxKind.cleanup;
  payload = Payload.for_version id version;
  state = OutboxState.pending;
  attempts = 0;
  next_at = env.stamp;
  last_error = none;
}

unfoldable pub put_cleanup : Env → Text → Text → Shelf → Result Shelf
unfolding cleanup_id cleanup_row
put_cleanup env id version w =
    let key = cleanup_id env id version in
    let row = cleanup_row env id version in
    let db' = record w.db { outbox = insert key row w.db.outbox } in
    guard (none_set (lookup key w.db.outbox)) constraint >> ok (record w { db = db' })

-- The transaction, which is rolled back if the cleanup's row cannot be put.
unfoldable pub mark_deleted : Knowledge → Text → Text → Document → Shelf → Result Shelf
unfolding update_document put_cleanup
mark_deleted c id expected d w = put_cleanup c.formats.env id expected (update_document id d w)

unfoldable pub check_expected : Document → Text → Result (Unit {0})
unfolding names
check_expected d expected = guard (not (expected == []) && names d expected) conflict

unfoldable pub delete_document : Knowledge → Text → Text → Shelf → Shelf × Result Document
unfolding load_document check_expected deleted mark_deleted restore_projection on
delete_document c id expected w = on w (load_document w id) λ d.
    let d' = deleted c.formats.env.stamp d in
    on w (check_expected d expected >> mark_deleted c id expected d' w)
      λ w'. on w' (restore_projection c w') λ w''. (w'', ok d')

-- Whether the document is served in the version.
unfoldable pub serves : Document → Text → Bool
unfolding names
serves d version = none_set d.deleted_at && names d version

unfoldable pub clean_projection : Knowledge → Document → Text → Shelf → Result Shelf
unfolding delete_version serves
clean_projection c d version w =
    if serves d version
    then ok w
    else guard c.has_rag unavailable
      >> guard (c.deletes version) send_failed
      >> ok (record w { rag = delete_version version w.rag })

-- The transaction at the end.
unfoldable pub settle_cleanup : Text → Document → Text → Shelf → Shelf
unfolding serves names sent_row update_row update_document
settle_cleanup row_id d version w =
    let removed = update_document d.id (record d { index_status = IndexStatus.removed }) w in
    let w' =
      if not (serves d version) && (not (none_set d.deleted_at) && names d version)
      then removed
      else w in
    record w' { db = update_row sent_row row_id w'.db }

unfoldable pub clean_up : Knowledge → Text → Text → Text → Shelf → Result Shelf
unfolding load_document clean_projection settle_cleanup
clean_up c row_id id version w = load_document w id >>= λ d.
    clean_projection c d version w >>= λ w'. ok (settle_cleanup row_id d version w')

-- The payload of another kind of row decodes to empty ids.
unfoldable pub cleanup_of : Knowledge → Text → Payload → Shelf → Result Shelf
unfolding clean_up
cleanup_of c row_id Payload.garbled w = err bad_payload
cleanup_of c row_id (Payload.for_run run_id) w = err invalid
cleanup_of c row_id (Payload.for_version id version) w =
    guard (not (id == [] || version == [])) invalid >> clean_up c row_id id version w

unfoldable pub dispatch_cleanup : Knowledge → Text → OutboxRow → Shelf → Result Shelf
unfolding cleanup_of
dispatch_cleanup c row_id row w = cleanup_of c row_id row.payload w

abbrev pub tables_after : Result Shelf → Result Db
tables_after (err e) = err e
tables_after (ok w) = ok w.db

-- `dispatchCleanup` as the loop of `Dispatch` calls it; `at` has the tables of the documents, and
-- the projection, that a row's cleanup finds.
unfoldable pub clean_up_with : Knowledge → (Text → Shelf) → Text → OutboxRow → Db → Result Db
unfolding dispatch_cleanup
clean_up_with c at id row db = tables_after (dispatch_cleanup c id row (record (at id) { db = db }))
