-- ===== src/Workspace/Diagnosis/Tests.antt =====
-- The theorems of this part on a run with one incident and one hit.
use oncall_agent.Prelude.{
  true, false, none, some, [], ◌∷◌, codes, ◌≡◌, refl, text_beq, text_lt, text_eq, length, All,
  trim_space, trim_left, trim_right, is_space, has_prefix, contains, decimal, decimal_from,
}
use oncall_agent.Workspace.State.{
  Status, DispatchState, EvidenceStatus, NotificationStatus, Run, Db, Result, ok, on,
}
use oncall_agent.Workspace.Tables.{
  Env, stable_id, load_run, save_run, add_event, new_event, stage_attempt, started_count,
  max_sequence, owned,
}
use oncall_agent.Workspace.Claims.{
  claim, event, claimed, is_leased, lease_run, drop_citations, start_attempt,
}
use oncall_agent.Workspace.Finish.{
  finish, publish, finished, put_report, announce, wants_notice, is_low, put_notice,
}
use oncall_agent.Workspace.Admission.{Incident}
use oncall_agent.Workspace.Documents.{Chunk, Shelf, load_document, IndexStatus}
use oncall_agent.Workspace.Diagnosis.{
  Hit, is_served, applies, anchored_in, is_qualified, qualifies, retrieval_id, source_error,
  retrieval_evidence, record_retrieval, put_hit, chunk_evidence, put_citation, cited_run,
  cite_chunk, record_hit,
}
use oncall_agent.Workspace.Diagnosis.Runs.{
  Around, Progress, Flow, goes_on, row_incident, failure, finish_run, heading, cited_text, add_cite,
  walk_hits, close_incident, record_found, ended_by, diagnose_incident, after_incident,
  diagnose_all,
}
use oncall_agent.Workspace.Diagnosis.Process.{
  note, judge_error, note_score, judge, outcome, conclude, nothing_yet, diagnose, settle_failure,
  run_claimed, process_diagnosis,
}
use oncall_agent.Workspace.Diagnosis.Fences.{Released}
use oncall_agent.Workspace.Diagnosis.Qualified.{Qualified, diagnose_all-Qualified}
use oncall_agent.Workspace.Diagnosis.Released.{process_diagnosis-Released}
use oncall_agent.Workspace.Diagnosis.Eligible.{IsEligible, qualifies-IsEligible}

program : Unit {0}
unfolding text_beq text_lt trim_space trim_left trim_right is_space has_prefix contains decimal
    decimal_from on stable_id load_run save_run add_event new_event stage_attempt started_count
    max_sequence owned claim event claimed is_leased lease_run drop_citations start_attempt finish
    publish finished put_report announce wants_notice is_low put_notice load_document is_served
    applies anchored_in is_qualified qualifies retrieval_id source_error retrieval_evidence
    record_retrieval put_hit chunk_evidence put_citation cited_run cite_chunk record_hit
    row_incident failure finish_run heading cited_text add_cite walk_hits close_incident
    record_found ended_by diagnose_incident after_incident diagnose_all note judge_error note_score
    judge outcome conclude diagnose settle_failure run_claimed process_diagnosis
program = tt

abbrev env : Env
env = record { hash = λ s. s; stamp = codes "t1"; later = λ n. codes "t2"; since_ms = λ s. none }

abbrev incident : Incident
incident = record {
  id = codes "i1";
  source_namespace = codes "m";
  environment = codes "prod";
  service = codes "db";
  name = codes "disk";
  severity = codes "p1";
  lifecycle_status = codes "open";
  starts_at = none;
  resolved_at = none;
  first_received_at = codes "t0";
  last_observed_at = codes "t0";
  identity_quality = codes "strong";
  latest_run_id = some (codes "r1");
}

abbrev queued : Run
queued = record {
  id = codes "r1";
  incident_ids = codes "i1" ∷ [];
  status = Status.queued;
  dispatch_state = DispatchState.pending;
  evidence_status = EvidenceStatus.not_evaluated;
  notification_status = NotificationStatus.disabled;
  judge_score = none;
  received_at = codes "t0";
  started_at = none;
  finished_at = none;
  duration_ms = none;
  current_attempt = 0;
  revision = 1;
  report_text = none;
  citation_ids = [];
  error = none;
}

abbrev tables : Db
tables = record {
  runs =
      (
        codes "r1",
        record {
          status = Status.queued;
          attempt = 0;
          revision = 1;
          lease_until = none;
          run = queued;
        },
      )
      ∷ [];
  events = [];
  outbox = [];
  citations = [];
  evidence = [];
  retrievals = [];
  retrieval_hits = [];
}

abbrev fix : Chunk
fix = record {
  id = codes "c1";
  version_id = codes "v1";
  document_id = codes "d1";
  title = codes "disk";
  snippet = codes "df";
  source = codes "upload";
  space_id = codes "sp";
}

abbrev shelf : Db → Shelf
shelf db = record {
  db = db;
  documents =
      (
        codes "d1",
        record {
          namespace = codes "local:upload";
          title = codes "disk";
          document = record {
            id = codes "d1";
            title = codes "disk";
            source_kind = codes "upload";
            environment = codes "all";
            active_version_id = some (codes "v1");
            deleted_at = none;
            index_status = IndexStatus.indexed;
          };
        },
      )
      ∷ [];
  versions = [];
  chunks = (codes "c1", fix) ∷ [];
  results = [];
  rag = record {
    bm = record { docs = []; df = []; tot_len = 0 };
    chunks = [];
    active = [];
    versioned = true;
    space_id = [];
    dimension = 0;
  };
}

abbrev hit : Hit
hit = record {
  chunk_id = codes "c1";
  version_id = codes "v1";
  doc_id = codes "d1";
  doc = codes "disk";
  source = codes "upload";
}

abbrev around : Around
around = record {
  env = env;
  settings = record { webhook = false; judge_threshold = 6 };
  to_lower = λ s. s;
  space_id = codes "sp";
  ready = true;
  search = λ q. some (hit ∷ []);
  expired = λ id. false;
  incidents = λ db. (codes "i1", incident) ∷ [];
  shelf = shelf;
  others = λ db. db;
  has_judge = true;
  score = λ text cites. some 8;
  elapsed = 5;
}

qualified : qualifies (λ s. s) (codes "sp") (shelf tables) incident hit ≡ ok (fix, true)
unfolding program
qualified = refl

qualifies-IsEligible_example : IsEligible (λ s. s) (codes "sp") (shelf tables) incident hit fix
qualifies-IsEligible_example =
    qualifies-IsEligible (λ s. s) (codes "sp") (shelf tables) incident hit fix qualified

abbrev run : Run
run = claimed env queued

abbrev begun : Db
begun = start_attempt env tables queued

claims : claim env tables (codes "r1") ≡ ok (begun, run, true)
unfolding program
claims = refl

process_diagnosis-Released_example : Released run (process_diagnosis around (codes "r1") tables).0
process_diagnosis-Released_example =
    process_diagnosis-Released around (codes "r1") tables begun run claims

cited : (process_diagnosis around (codes "r1") tables).1 ≡ ok tt
unfolding program
cited = refl

abbrev progress_of : Result Flow → Progress
progress_of (ok (goes_on p)) = p
progress_of _ = nothing_yet

abbrev walked : Db × Result Flow
walked = diagnose_all around run run.incident_ids nothing_yet begun

diagnosed : walked ≡ (walked.0, ok (goes_on (progress_of walked.1)))
unfolding program
diagnosed = refl

diagnose_all-Qualified_example : All (Qualified around run) (progress_of walked.1).cites
diagnose_all-Qualified_example =
    diagnose_all-Qualified around run begun walked.0 (progress_of walked.1) diagnosed

-- The hit is cited.
counted : length (progress_of walked.1).cites ≡ 1
unfolding program
counted = refl
