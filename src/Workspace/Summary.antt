-- ===== src/Workspace/Summary.antt =====
-- `SummaryWindow` of internal/workspace/readmodel.go: the figures of the incidents in scope and of their
-- runs, in all and by the day of receipt. A time is the nanoseconds since the zero time. The tables give
-- the runs in their own order, which the figures do not depend on. A quotient of floats is kept as its
-- two numbers, an entry of the history as its day and bucket, whose quotients are those of its numbers,
-- and the constant texts of the answer are left out. No sum of durations is taken to reach 2^63.
pub mod Agreement
pub mod Balanced
use oncall_agent.Prelude.{
  ℕ, zero, suc, ◌+◌, Bool, true, false, not, ◌&&◌, ◌||◌, Option, none, some, List, [], ◌∷◌, Text,
  codes, if◌then◌else◌, ltb, ◌==◌, nat_eq, text_eq, any, is_empty, text_lt,
}
use oncall_agent.Workspace.State.{
  Status, EvidenceStatus, Run, RunRow, Result, ok, err, invalid, ◌>>=◌,
}
use oncall_agent.Workspace.Tables.{load_run}
use oncall_agent.Workspace.Admission.{Incident, Store}

pub record Bucket : Type 0 where
  pub received : ℕ
  pub succeeded : ℕ
  pub no : ℕ
  pub cited : ℕ
  pub samples : ℕ
  pub duration : ℕ

abbrev pub Days : Type 0
Days = List (Text × Bucket)

abbrev pub empty_bucket : Bucket
empty_bucket = record { received = 0; succeeded = 0; no = 0; cited = 0; samples = 0; duration = 0 }

-- `getBucket` and the changes of what it points to.
unfoldable pub change_bucket : (Bucket → Bucket) → Text → Days → Days
change_bucket f day [] = (day, f empty_bucket) ∷ []
change_bucket f day ((d, b) ∷ days) =
    let rest = change_bucket f day days in if d == day then (d, f b) ∷ days else (d, b) ∷ rest

pub record Latest : Type 0 where
  pub active : ℕ
  pub no : ℕ
  pub unavailable : ℕ

-- The totals of the loop over the runs, with the buckets.
pub record Totals : Type 0 where
  pub success : ℕ
  pub cited : ℕ
  pub samples : ℕ
  pub total : ℕ
  pub days : Days

abbrev pub count : Bool → ℕ
count true = 1
count false = 0

abbrev pub is_none_found : EvidenceStatus → Bool
is_none_found EvidenceStatus.no_evidence = true
is_none_found _ = false

abbrev pub is_unavailable : EvidenceStatus → Bool
is_unavailable EvidenceStatus.source_unavailable = true
is_unavailable _ = false

abbrev pub is_success : Status → Bool
is_success Status.succeeded = true
is_success _ = false

-- The run counts as cited.
unfoldable pub is_cited : Run → Bool
is_cited r = is_success r.status && not (is_empty r.citation_ids)

-- The duration of a run that has ended.
unfoldable pub sample : Status → Option ℕ → Option ℕ
sample Status.succeeded ms = ms
sample Status.failed ms = ms
sample _ ms = none

abbrev pub sampled : Option ℕ → ℕ
sampled none = 0
sampled (some ms) = 1

abbrev pub lasted : Option ℕ → ℕ
lasted none = 0
lasted (some ms) = ms

abbrev pub with_run : Latest → Run → Latest
with_run l r = record l {
  no = l.no + count (is_none_found r.evidence_status);
  unavailable = l.unavailable + count (is_unavailable r.evidence_status);
}

-- The latest run of an incident.
unfoldable pub latest_run : Store → Option Text → Latest → Result Latest
unfolding load_run
latest_run s none l = ok l
latest_run s (some id) l = load_run s.db id >>= λ r. ok (with_run l r)

-- The loop over the incidents.
unfoldable pub latest : Store → List Incident → Latest → Result Latest
unfolding latest_run
latest s [] l = ok l
latest s (i ∷ is) l =
    let active = l.active + count (i.lifecycle_status == codes "active") in
    latest_run s i.latest_run_id record l { active = active } >>= λ l'. latest s is l'

unfoldable pub is_included : List Incident → Run → Bool
is_included scope r = any (λ (id : Text). any (λ (i : Incident). i.id == id) scope) r.incident_ids

-- A zero time bounds nothing.
unfoldable pub is_outside : ℕ → ℕ → ℕ → Bool
is_outside begin end at = (not (begin == 0) && ltb at begin) || (not (end == 0) && ltb end at)

unfoldable pub add_run : Run → Bucket → Bucket
unfolding is_cited sample
add_run r b = record b {
  no = b.no + count (is_none_found r.evidence_status);
  succeeded = b.succeeded + count (is_success r.status);
  cited = b.cited + count (is_cited r);
  samples = b.samples + sampled (sample r.status r.duration_ms);
  duration = b.duration + lasted (sample r.status r.duration_ms);
}

unfoldable pub tally : Run → Text → Totals → Totals
unfolding is_cited sample change_bucket add_run
tally r day t = record {
  success = t.success + count (is_success r.status);
  cited = t.cited + count (is_cited r);
  samples = t.samples + sampled (sample r.status r.duration_ms);
  total = t.total + lasted (sample r.status r.duration_ms);
  days = change_bucket (add_run r) day t.days;
}

abbrev pub add_received : Bucket → Bucket
add_received b = record b { received = b.received + 1 }

-- `sort.Strings` of the days, with their buckets.
unfoldable pub insert_day : Text × Bucket → Days → Days
insert_day d [] = d ∷ []
insert_day d (e ∷ es) = if text_lt e.0 d.0 then e ∷ insert_day d es else d ∷ e ∷ es

unfoldable pub history : Days → Days
unfolding insert_day
history [] = []
history (d ∷ ds) = if d.0 == [] then history ds else insert_day d (history ds)

-- A quotient, where there is something to divide by.
abbrev pub quotient : ℕ → ℕ → Option (ℕ × ℕ)
quotient n zero = none
quotient n (suc d) = some (n, suc d)

pub record Summary : Type 0 where
  pub active_incidents : ℕ
  pub no_evidence_incidents : ℕ
  pub source_unavailable_incidents : ℕ
  pub succeeded_runs : ℕ
  pub cited_succeeded_runs : ℕ
  pub mean_diagnosis_ms : Option (ℕ × ℕ)
  pub latency_samples : ℕ
  pub citation_coverage : Option (ℕ × ℕ)
  pub history : Days

unfoldable pub summary : Latest → Totals → Summary
unfolding history
summary l t = record {
  active_incidents = l.active;
  no_evidence_incidents = l.no;
  source_unavailable_incidents = l.unavailable;
  succeeded_runs = t.success;
  cited_succeeded_runs = t.cited;
  mean_diagnosis_ms = quotient t.total t.samples;
  latency_samples = t.samples;
  citation_coverage = quotient t.cited t.success;
  history = history t.days;
}

-- `parse_time` is time.Parse, and `format_day` the format of a time's day in UTC.
module _ (parse_time : Text → Option ℕ) (format_day : ℕ → Text) where
  abbrev pub must_parse : Option ℕ → Result ℕ
  must_parse none = err invalid
  must_parse (some t) = ok t

  unfoldable pub bound : Text → Result ℕ
  bound text = let parsed = must_parse (parse_time text) in if text == [] then ok 0 else parsed

  abbrev pub formatted : Option ℕ → Text
  formatted none = []
  formatted (some t) = format_day t

  unfoldable pub receive_all : List Incident → Days → Days
  unfolding change_bucket
  receive_all [] days = days
  receive_all (i ∷ is) days =
      let day = formatted (parse_time i.first_received_at) in
      receive_all is (if day == [] then days else change_bucket add_received day days)

  unfoldable pub count_runs : ℕ → ℕ → List Incident → List (Text × RunRow) → Totals → Result Totals
  unfolding is_included is_outside tally
  count_runs begin end scope [] t = ok t
  count_runs begin end scope ((id, row) ∷ rows) t =
      let skipped = count_runs begin end scope rows t in
      let counted = must_parse (parse_time row.run.received_at) >>= λ at.
      count_runs begin end scope rows
        (if is_outside begin end at then t else tally row.run (format_day at) t) in
      if is_included scope row.run then counted else skipped

  unfoldable pub summary_window : List Incident → Text → Text → Store → Result Summary
  unfolding bound latest receive_all count_runs summary
  summary_window incidents from to s = bound from >>= λ begin. bound to >>= λ end.
      latest s incidents record { active = 0; no = 0; unavailable = 0 } >>= λ l.
      count_runs begin end incidents s.db.runs
        record { success = 0; cited = 0; samples = 0; total = 0; days = receive_all incidents [] }
      >>= λ t. ok (summary l t)
