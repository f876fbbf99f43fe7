-- ===== src/Lib.antt =====
-- oncall-agent: a service that diagnoses alerts. HTTP requests pass the authentication of
-- internal/auth; the workspace (internal/workspace) keeps incidents, diagnosis runs, their events
-- and an outbox in SQLite, from which diagnoses and notifications are put on a task queue. The agent
-- (internal/agent) answers questions with the tools and the knowledge that internal/rag retrieves.
--
-- Auth models internal/auth/auth.go.
--   * Auth/State: `Auth`, `session`, `window`, `New` and its options, and the parts of a request
--     that the code reads. sha256, url.Parse and net.SplitHostPort are fields of the argument `Net`.
--   * Auth/Limits: `allow` and `rate`. Auth/Sessions: `getSession`, and the purge, the eviction and
--     the storing of `login`. Auth/Checks: `bearer`, `localhost`, `originOK`, `cookieSecure`.
--   * Auth/Gate: `Middleware` as a function from the state and a request to the state and a verdict.
--     Auth/Handlers: `login`, `current`, `logout`; Auth/Handlers/Runs: sequences of requests.
--   Maps are association lists with distinct keys and `range` takes their order. Times are
--   nanoseconds, and one reading of the clock serves a request: the source reads it once in each
--   function, a few microseconds apart. Random ids are arguments. The mutex makes every function a
--   step of its own; a request is one step here.
--
-- Workspace models internal/workspace/service.go on the tables of model.go and database.go.
--   * Workspace/State: the tables and the records of model.go. Workspace/Tables: `decodeRow` of a
--     run, `saveRun`, `addEvent`, `owned`, `stableID`.
--   * Workspace/Claims: `claim` and `event`. Workspace/Finish: `finish`. Workspace/Recovery:
--     `Recover`. Workspace/Notify: `ProcessNotification`. Workspace/Dispatch: `Dispatch`.
--   * Workspace/Admission: `insertRun`; its children Manual, `ReDiagnose`, and Alerts, `canonical`,
--     `severity`, `Admit` and `unique`. encoding/json, time and strings are the argument `Formats`, and
--     the observations in the payload of a diagnosis are not kept.
--   * Workspace/Diagnosis: `eligible` and the transactions of `diagnose`; its children Runs, the loop over
--     the incidents, and Process, `judge`, the end of `diagnose` and `ProcessAlertDiagnosis`. What other
--     workers commit between two transactions is the argument `others`; the search, the judge and the
--     context are arguments too, and a panic is not modelled.
--   * Workspace/Graphs: `Graph` of readmodel.go. Workspace/Summary: `SummaryWindow`.
--   * Workspace/Topology: `ForService` of topology.go. Its two loops run on fuel, one round for the focus,
--     one for each end of an edge and one more, which is enough since an id is queued once.
--   * Workspace/Coherence says what the tables keep, and Workspace/History takes the transactions as
--     the steps of a relation, in any order and by any number of workers: those of claims, events,
--     results, restarts, retrievals and hits, the insertion of a run, the two of a notification, each row
--     of the dispatcher, and every transaction on other tables. History/Parts has `ProcessNotification`
--     and `Dispatch` as such histories; what other workers commit between their transactions is a
--     field of `Delivery` and of `Outside`.
--   A transaction is a function into a result, and a failing one leaves the tables as they were.
--   SQLite's own failures, other than a row that is missing, are not modelled. A column that holds
--   JSON holds the value. Stamps are texts that are compared as texts, as the SQL does. The clock,
--   sha256, the queue's answers, the context, and how a delivery went are arguments. A payload in
--   the outbox is kept as what it decodes to; the text of a notification is not kept, nor is the error
--   of `legacyReportTx`, which builds it.
--   The relation takes `dispatchCleanup` as an argument that is relied on to let the tables evolve
--   (`CleansUp`), since it also works on the documents, which the relation leaves out.
--   * Workspace/Documents: the tables of knowledge.go and `RestoreProjection`. Its children Requests and
--     Put model `PutDocument`, and Remove `DeleteDocument` and `dispatchCleanup`. The other children
--     compare the projection with the tables. An operation has the tables it leaves beside its result,
--     since what `PutDocument` writes before its transaction stays when it fails. encoding/json,
--     the embedder and the vector store are arguments.
--
-- Agent models internal/agent and the whitelist of internal/tool.
--   * Agent/Evidence: evidence.go. Agent/Conversations: the table of conversations of react.go.
--     Agent/Loop: `Run`, `loop`, `fallback`, and `AllowedFor`, `IsAllowed`, `ExecWithContext`.
--   The model, the tools' implementations and the context are the argument `World`. They may answer
--   each time as they like, since what they answer may depend on all the messages so far.
--
-- Retrieval models parts of internal/rag: Retrieval/Anchor is `LexicalAnchor` of qualification.go,
--   which the agent asks of every hit, and Retrieval/Index the tokenizer and the index of bm25.go.
--   Retrieval/Chunks is `ChunkMarkdown` of rag.go, compared with a partition of the lines by headings that
--   Chunks/Headings reads off a line, and
--   Retrieval/Versions the operations of versions.go on the projection. Package unicode is the argument
--   `Unicode`, and the embedder, md5 and the vector store are `Backend`. Retrieval/Rerank is `Rerank` and
--   `parseRerankScores` of rerank.go; its floats are `Floats`. A text is the list of its code
--   points.
--
-- All other loops are structural recursion on lists, and that of `Run` on its three rounds;
-- `Dispatch` takes at most 100 rows, as its query does.
--
-- Not modelled: the HTTP handlers, configuration, metrics and tracing back ends, the vector store
-- and the embedding client, the commands, and the pages in web/ (input and output around the parts
-- above).
mod Prelude
pub mod Auth
pub mod Workspace
pub mod Retrieval
pub mod Agent
