-- ===== src/Workspace/Diagnosis/Runs.antt =====
-- The loop of `diagnose` over the incidents of a run.
use oncall_agent.Prelude.{
  ℕ, suc, Bool, true, false, Option, none, some, List, [], ◌∷◌, ◌++◌, Text, codes, if◌then◌else◌,
  ◌==◌, text_eq, ltb, lookup,
}
use oncall_agent.Workspace.State.{
  Status, EvidenceStatus, Stage, Kind, Run, Db, Result, ok, err, on, no_rows,
}
use oncall_agent.Workspace.Tables.{Env}
use oncall_agent.Workspace.Claims.{event}
use oncall_agent.Workspace.Finish.{Settings, Outcome, finish}
use oncall_agent.Workspace.Admission.{Incident}
use oncall_agent.Workspace.Documents.{Chunk, Shelf}
use oncall_agent.Workspace.Diagnosis.{Hit, qualifies, retrieval_id, record_retrieval, record_hit}

-- What a diagnosis takes from elsewhere: the clock, the settings, whether the source is ready, what
-- the search answers (none is an error), whether the context is done at an incident, whether a judge is
-- configured and its score (none is an error), and milliseconds. `others` is what other workers commit
-- before each of its transactions, and `shelf` the documents that it finds, both depending on the tables.
pub record Around : Type 0 where
  pub env : Env
  pub settings : Settings
  pub to_lower : Text → Text
  pub space_id : Text
  pub ready : Bool
  pub search : Text → Option (List Hit)
  pub expired : Text → Bool
  pub incidents : Db → List (Text × Incident)
  pub shelf : Db → Shelf
  pub others : Db → Db
  pub has_judge : Bool
  pub score : Text → List Hit → Option ℕ
  pub elapsed : ℕ

-- The variables of the loop over the incidents.
pub record Progress : Type 0 where
  pub report : Text
  pub cites : List Hit
  pub evidence : EvidenceStatus
  pub failed : Bool

pub data Flow : Type 0 where
  goes_on : Progress → Flow
  ended : Flow

abbrev pub safe_report : Text
safe_report = codes "当前未找到可用于处置的合格知识，请人工研判。"

unfoldable pub row_incident : Option Incident → Result Incident
row_incident none = err no_rows
row_incident (some inc) = ok inc

-- What `diagnose` finishes with.
unfoldable pub failure : Around → Text → Text → Outcome
failure a code message = record {
  status = Status.failed;
  evidence = EvidenceStatus.source_unavailable;
  text = safe_report;
  score = none;
  error = some (record { code = code; message = message; retryable = true });
  elapsed = a.elapsed;
}

unfoldable pub finish_run : Around → Run → Outcome → Db → Db × Result (Unit {0})
unfolding finish
finish_run a r o db =
    let db' = a.others db in on db' (finish a.env a.settings db' r o) λ done. (done, ok tt)

unfoldable pub heading : Incident → Text
heading inc =
    codes "\n["
    ++ inc.severity
    ++ codes "] "
    ++ inc.name
    ++ codes "（"
    ++ inc.environment
    ++ codes " / "
    ++ inc.service
    ++ codes "）\n"

unfoldable pub cited_text : Hit → Chunk → Text
cited_text h c =
    codes "来源片段【" ++ h.doc ++ codes " / " ++ c.version_id ++ codes "】：\n" ++ c.snippet ++ codes "\n"

unfoldable pub add_cite : Hit → Chunk → Bool → ℕ × Progress → ℕ × Progress
unfolding cited_text
add_cite h c false so_far = so_far
add_cite h c true (n, p) =
    (suc n, record p { report = p.report ++ cited_text h c; cites = p.cites ++ h ∷ [] })

-- The loop over the hits; the number is that of the hits that were cited.
unfoldable pub walk_hits :
    Around
    → Run
    → Text
    → Incident
    → Shelf
    → ℕ
    → List Hit
    → ℕ × Progress
    → Db
    → Db × Result (ℕ × Progress)
unfolding qualifies record_hit add_cite on
walk_hits a r id inc w rank [] so_far db = (db, ok so_far)
walk_hits a r id inc w rank (h ∷ hs) so_far db =
    let rest = walk_hits a r id inc w (suc rank) hs in
    on db (qualifies a.to_lower a.space_id w inc h) λ found.
      if found.0.id == []
      then rest so_far db
      else record_then (a.others db) (suc rank) h found rest so_far
  where
    record_then :
        Db
        → ℕ
        → Hit
        → Chunk × Bool
        → (ℕ × Progress → Db → Db × Result (ℕ × Progress))
        → ℕ × Progress
        → Db × Result (ℕ × Progress)
    record_then db' n h found rest so_far =
        on db' (record_hit a.env r id n found.0 found.1 db')
          λ done. rest (add_cite h found.0 found.1 so_far) done

unfoldable pub close_incident : Bool → ℕ × Progress → Progress
close_incident found (n, p) =
    if ltb 0 n
    then record p {
      evidence = EvidenceStatus.has_citations;
      report = p.report ++ codes "以上为来源记录，尚未独立核验，不代表已确认根因。\n";
    }
    else record p {
      report =
          p.report
          ++ (if found then safe_report ++ codes "\n" else codes "知识检索源不可用；本轮未给出处置建议，请人工检查数据源。\n");
    }

abbrev pub hits_of : Option (List Hit) → List Hit
hits_of none = []
hits_of (some hs) = hs

abbrev pub is_found : Option (List Hit) → Bool
is_found none = false
is_found (some hs) = true

-- After the search: the traversal and then the hits are recorded.
unfoldable pub record_found :
    Around → Run → Text → Incident → Option (List Hit) → Progress → Db → Db × Result Flow
unfolding record_retrieval walk_hits close_incident heading on
record_found a r id inc answer p db =
    let db' = a.others db in
    let begun = record p {
      report = p.report ++ heading inc;
      failed = if is_found answer then p.failed else true;
    } in
    let w = a.shelf db' in
    on db' (record_retrieval a.env a.space_id r id inc (is_found answer) a.elapsed db') λ done.
      let walked = walk_hits a r id inc w 0 (hits_of answer) (0, begun) done in
      on walked.0 walked.1
        λ so_far. (walked.0, ok (goes_on (close_incident (is_found answer) so_far)))

unfoldable pub ended_by : Db × Result (Unit {0}) → Db × Result Flow
ended_by (db, err e) = (db, err e)
ended_by (db, ok u) = (db, ok ended)

unfoldable pub diagnose_incident : Around → Run → Text → Progress → Db → Db × Result Flow
unfolding finish_run failure row_incident event record_found retrieval_id on ended_by
diagnose_incident a r id p db =
    let over = finish_run a r (failure a (codes "timeout") (codes "诊断超时或取消")) db in
    let db' = a.others db in
    if a.expired id
    then ended_by over
    else on db (row_incident (lookup id (a.incidents db))) λ inc.
      on db'
        (event a.env db' r Stage.retrieval Kind.started none (some (retrieval_id a.env r id)) none)
        λ begun. record_found a r id inc (if a.ready then a.search inc.name else none) p begun

unfoldable pub after_incident : Flow → (Progress → Db → Db × Result Flow) → Db → Db × Result Flow
after_incident ended rest db = (db, ok ended)
after_incident (goes_on p) rest db = rest p db

unfoldable pub diagnose_all : Around → Run → List Text → Progress → Db → Db × Result Flow
unfolding diagnose_incident after_incident on
diagnose_all a r [] p db = (db, ok (goes_on p))
diagnose_all a r (id ∷ ids) p db =
    let done = diagnose_incident a r id p db in
    on done.0 done.1 λ flow. after_incident flow (diagnose_all a r ids) done.0
