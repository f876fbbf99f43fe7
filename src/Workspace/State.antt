-- ===== src/Workspace/State.antt =====
-- internal/workspace/model.go and the tables of database.go that the service reads and writes.
-- Columns that hold an encoded value hold the value itself. Times are texts, as in the tables.
use oncall_agent.Prelude.{
  ℕ, Bool, Option, List, Text, ◌≡◌, refl, ◌⊎◌, inl, inr, true, false, if◌then◌else◌,
}

pub data Status : Type 0 where
  queued running succeeded failed cancelled : Status

pub data DispatchState : Type 0 where
  pending enqueued : DispatchState

pub data EvidenceStatus : Type 0 where
  not_evaluated no_evidence has_citations source_unavailable : EvidenceStatus

pub data NotificationStatus : Type 0 where
  disabled pending sent failed : NotificationStatus

pub data Stage : Type 0 where
  receive queue retrieval judge report notification : Stage

pub data Kind : Type 0 where
  started succeeded failed skipped : Kind

pub record ApiError : Type 0 where
  pub code : Text
  pub message : Text
  pub retryable : Bool

pub record Run : Type 0 where
  pub id : Text
  pub incident_ids : List Text
  pub status : Status
  pub dispatch_state : DispatchState
  pub evidence_status : EvidenceStatus
  pub notification_status : NotificationStatus
  pub judge_score : Option ℕ
  pub received_at : Text
  pub started_at : Option Text
  pub finished_at : Option Text
  pub duration_ms : Option ℕ
  pub current_attempt : ℕ
  pub revision : ℕ
  pub report_text : Option Text
  pub citation_ids : List Text
  pub error : Option ApiError

pub record Event : Type 0 where
  pub event_id : Text
  pub run_id : Text
  pub attempt : ℕ
  pub sequence : ℕ
  pub stage : Stage
  pub stage_attempt : ℕ
  pub kind : Kind
  pub occurred_at : Text
  pub duration_ms : Option ℕ
  pub result_ref : Option Text
  pub error : Option ApiError

pub record Evidence : Type 0 where
  pub kind : Text
  pub source_kind : Text
  pub source_ref : Text
  pub recorded_at : Text
  pub observed_at : Option Text
  pub document_id : Option Text
  pub version_id : Option Text
  pub chunk_id : Option Text
  pub snippet : Option Text
  pub run_id : Option Text
  pub metadata : List (Text × Text)

-- A row of `diagnosis_runs` under its id.
pub record RunRow : Type 0 where
  pub status : Status
  pub attempt : ℕ
  pub revision : ℕ
  pub lease_until : Option Text
  pub run : Run

pub data OutboxKind : Type 0 where
  diagnosis notification cleanup other : OutboxKind

pub data OutboxState : Type 0 where
  pending sent dead : OutboxState

-- What the payload decodes to; `garbled` does not decode.
pub data Payload : Type 0 where
  for_run : Text → Payload
  for_version : Text → Text → Payload
  garbled : Payload

-- A row of `outbox` under its id. The code gives every row its id as `dedupe_key` too.
pub record OutboxRow : Type 0 where
  pub kind : OutboxKind
  pub payload : Payload
  pub state : OutboxState
  pub attempts : ℕ
  pub next_at : Text
  pub last_error : Option Text

-- A row of `report_citations`, which has no two rows of the same run, incident and chunk and none of the
-- same evidence.
pub record CitationRow : Type 0 where
  pub run_id : Text
  pub incident_id : Text
  pub retrieval_id : Text
  pub chunk_id : Text
  pub evidence_id : Text

-- A row of `retrieval_hits`, without the scores.
pub record HitRow : Type 0 where
  pub retrieval_id : Text
  pub chunk_id : Text
  pub rank : ℕ
  pub eligibility : Bool

pub record Db : Type 0 where
  pub runs : List (Text × RunRow)
  pub events : List Event
  pub outbox : List (Text × OutboxRow)
  pub citations : List CitationRow
  pub evidence : List (Text × Evidence)
  pub retrievals : List (Text × Evidence)
  pub retrieval_hits : List HitRow

pub data Error : Type 0 where
  no_rows fenced leased skip_retry send_failed cancelled_context bad_payload : Error
  invalid constraint unavailable conflict index_failed : Error

-- The value of a Go function with an `error`, which is nil exactly for `ok`.
pub data Result {ℓ} (T : Type ℓ) : Type ℓ where
  err : Error → Result T
  ok : T → Result T

-- A call whose error ends an operation that is no transaction: the state stays as it is.
unfoldable pub on {ℓ κ μ} :
    {S : Type μ} {A : Type ℓ} {B : Type κ} → S → Result A → (A → S × Result B) → S × Result B
on state (err e) rest = (state, err e)
on state (ok a) rest = rest a

infixl 5 ◌>>=◌ ◌>>◌
-- `if err != nil { return err }` between two calls.
abbrev pub ◌>>=◌ {ℓ κ} : {T : Type ℓ} {U : Type κ} → Result T → (T → Result U) → Result U
err failure >>= rest = err failure
ok value >>= rest = rest value

abbrev pub ◌>>◌ {ℓ} : {U : Type ℓ} → Result (Unit {0}) → Result U → Result U
call >> rest = call >>= λ _. rest

-- Returns the error where the condition fails.
abbrev pub guard : Bool → Error → Result (Unit {0})
guard condition failure = if condition then ok tt else err failure

abbrev pub is_running : Status → Bool
is_running Status.running = true
is_running _ = false

-- `claim` leaves such runs alone.
abbrev pub is_terminal : Status → Bool
is_terminal Status.succeeded = true
is_terminal Status.failed = true
is_terminal Status.cancelled = true
is_terminal _ = false

pub Result-cases {ℓ} :
    {A : Type ℓ} (m : Result A) → ((a : A) × (m ≡ ok a)) ⊎ ((e : Error) × (m ≡ err e))
Result-cases (ok a) = inl (a, refl)
Result-cases (err e) = inr (e, refl)
