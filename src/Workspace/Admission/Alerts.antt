-- ===== src/Workspace/Admission/Alerts.antt =====
-- `canonical`, `severity`, `unique` and `Admit`: a batch of observations becomes incidents, and a run
-- for those that are firing.
use oncall_agent.Prelude.{
  ℕ, Bool, true, false, not, ◌&&◌, ◌||◌, Option, none, some, List, [], ◌∷◌, ◌++◌, Text, codes,
  if◌then◌else◌, ◌==◌, text_eq, leb, ltb, length, lookup, insert, any, text_lt,
}
use oncall_agent.Workspace.State.{Run, Result, ok, err, invalid, unavailable, guard, ◌>>=◌, ◌>>◌}
use oncall_agent.Workspace.Tables.{load_run, stable_id}
use oncall_agent.Workspace.Admission.{
  Observation, Incident, Seen, Store, Formats, insert_run, new_run,
}

abbrev or_empty : Option Text → Text
or_empty none = []
or_empty (some s) = s

abbrev label : Text → List (Text × Text) → Text
label k labels = or_empty (lookup k labels)

abbrev or_unknown : Text → Text
or_unknown s = if s == [] then codes "unknown" else s

unfoldable pub named_labels : Observation → List (Text × Text)
named_labels o =
    if label (codes "alertname") o.labels == []
    then insert (codes "alertname") o.name o.labels
    else o.labels

-- The epoch, the quality and the start.
parsed_start : Formats → Option ℕ → Result (Text × Text × Option Text)
parsed_start f none = err invalid
parsed_start f (some t) = ok (f.print_time t, codes "exact", some (f.print_time t))

unfoldable pub start_of : Formats → Observation → Result (Text × Text × Option Text)
unfolding parsed_start
start_of f o =
    if o.starts_at == []
    then ok (f.five_minutes, codes "windowed", none)
    else parsed_start f (f.parse_time o.starts_at)

-- The key, the quality and the start.
unfoldable pub canonical : Formats → Observation → Result (Text × Text × Option Text)
unfolding named_labels start_of
canonical f o =
    let labels = named_labels o in
    let env = or_unknown (label (codes "environment") labels) in
    guard (not (label (codes "alertname") labels == [])) invalid >> start_of f o >>= λ e. ok (
      f.env.hash (
          codes "alert-v1:alertmanager:"
          ++ env
          ++ codes ":"
          ++ f.json_labels labels
          ++ codes ":"
          ++ e.0),
      e.1,
      e.2,
    )

unfoldable pub severity : Formats → Text → Text
severity f s =
    let l = f.to_lower s in
    if l == codes "p0" || l == codes "critical"
    then codes "P0"
    else if l == codes "p1" || l == codes "warning"
    then codes "P1"
    else if l == codes "p2"
    then codes "P2"
    else if l == codes "p3" || l == codes "info"
    then codes "P3"
    else codes "unknown"

-- INSERT OR IGNORE of the observation, for an incident or for none.
unfoldable pub record_seen : Formats → Text → Option Text → Observation → Store → Store
unfolding stable_id
record_seen f key incident o s =
    let entry : Seen = record {
      id = stable_id f.env (codes "obs_") (key ++ f.json o);
      incident = incident;
      event_key = f.env.hash (key ++ f.json o);
      observation = o;
    } in
    if any (λ e. e.id == entry.id || e.event_key == entry.event_key) s.seen
    then s
    else record s { seen = s.seen ++ entry ∷ [] }

unfoldable pub new_incident : Formats → Text → Text → Option Text → Observation → Incident
unfolding severity
new_incident f id quality start o = record {
  id = id;
  source_namespace = codes "alertmanager";
  environment = or_unknown (label (codes "environment") o.labels);
  service = or_unknown (label (codes "service") o.labels);
  name = o.name;
  severity = severity f o.severity;
  lifecycle_status = codes "active";
  starts_at = start;
  resolved_at = none;
  first_received_at = f.env.stamp;
  last_observed_at = f.env.stamp;
  identity_quality = quality;
  latest_run_id = none;
}

abbrev is_later : Text → Option Text → Bool
is_later val none = true
is_later val (some t) = text_lt t val

resolved_at : Formats → ℕ → Option ℕ → Incident → Result Incident
resolved_at f begin none inc = err invalid
resolved_at f begin (some end) inc =
    let val = f.print_time end in
    let resolved = record inc { resolved_at = some val; lifecycle_status = codes "resolved" } in
    guard (not (ltb end begin)) invalid
    >> ok (if is_later val inc.resolved_at then resolved else inc)

-- The zero time where the text does not parse.
abbrev or_zero_time : Option ℕ → ℕ
or_zero_time none = 0
or_zero_time (some t) = t

unfoldable pub resolve : Formats → Observation → Option Text → Incident → Result Incident
unfolding resolved_at
resolve f o none inc = err invalid
resolve f o (some start) inc =
    guard (not (o.ends_at == [])) invalid
    >> resolved_at f (or_zero_time (f.parse_time start)) (f.parse_time o.ends_at) inc

abbrev is_resolved : Observation → Bool
is_resolved o = o.status == codes "resolved"

-- The incident as the observation leaves it, and whether it asks for a diagnosis.
update_incident : Formats → Text → Observation → Store → Incident → Store
unfolding record_seen
update_incident f key o s inc =
    let s' = record s {
      incidents = insert inc.id (record inc { last_observed_at = f.env.stamp }) s.incidents;
    } in
    record_seen f key (some inc.id) o s'

observe_resolved :
    Formats → Text → Option Text → Observation → Store → Incident → Result (Store × List Text)
unfolding resolve update_incident
observe_resolved f key start o s inc =
    resolve f o start inc >>= λ inc'. ok (update_incident f key o s inc', [])

unfoldable pub observe_known :
    Formats → Text → Option Text → Observation → Store → Incident → Result (Store × List Text)
unfolding observe_resolved update_incident
observe_known f key start o s inc =
    if is_resolved o
    then observe_resolved f key start o s inc
    else ok (update_incident f key o s inc, inc.id ∷ [])

-- A recovery of an incident that is not known is only recorded.
unfoldable pub observe_at :
    Formats
    → Text
    → Text
    → Option Text
    → Observation
    → Store
    → Option Incident
    → Result (Store × List Text)
unfolding observe_known new_incident
observe_at f key quality start o s (some inc) = observe_known f key start o s inc
observe_at f key quality start o s none =
    if is_resolved o
    then ok (record_seen f key none o s, [])
    else observe_known f key start o s
        (new_incident f (stable_id f.env (codes "inc_") key) quality start o)

unfoldable pub observe : Formats → Observation → Store → Result (Store × List Text)
unfolding canonical observe_at stable_id
observe f o s = canonical f o >>= λ c.
    observe_at f c.0 c.1 c.2 o s (lookup (stable_id f.env (codes "inc_") c.0) s.incidents)

-- The loop over the batch, with the ids of the incidents that are firing.
unfoldable pub observe_all : Formats → List Observation → Store → Result (Store × List Text)
unfolding observe
observe_all f [] s = ok (s, [])
observe_all f (o ∷ os) s = observe f o s >>= λ e. observe_all f os e.0 >>= λ r. ok (r.0, e.1 ++ r.1)

abbrev insert_text : Text → List Text → List Text
insert_text t [] = t ∷ []
insert_text t (x ∷ xs) = if text_lt x t then x ∷ insert_text t xs else t ∷ x ∷ xs

-- sort.Strings
unfoldable pub sort_texts : List Text → List Text
sort_texts [] = []
sort_texts (t ∷ ts) = insert_text t (sort_texts ts)

-- `unique`, with the text before.
unique_after : Text → List Text → List Text
unique_after last [] = []
unique_after last (t ∷ ts) =
    let skip = unique_after last ts in
    let keep = t ∷ unique_after t ts in if last == t then skip else keep

unfoldable pub unique : List Text → List Text
unfolding unique_after
unique [] = []
unique (t ∷ ts) = t ∷ unique_after t ts

join : List Text → Text
join [] = []
join (t ∷ []) = t
join (t ∷ u ∷ ts) = t ++ codes "," ++ join (u ∷ ts)

unfoldable pub business_key : Formats → List Text → Text
unfolding join
business_key f ids = f.env.hash (codes "policy-v1:" ++ join ids)

-- The run of a business key, which is the run's duplicate.
unfoldable pub existing : Store → Text → Result (Store × Option Run × Bool)
existing s run_id = load_run s.db run_id >>= λ r. ok (s, some r, true)

unfoldable pub admit_new :
    Formats → Bool → List Text → Text → Store → Result (Store × Option Run × Bool)
admit_new f ready ids business s =
    let r = new_run f business ids in
    guard ready unavailable >> insert_run f r business s >>= λ s'. ok (s', some r, false)

-- With the run of the business key, if there is one.
unfoldable pub admit_at :
    Formats → Bool → List Text → Text → Store → Option Text → Result (Store × Option Run × Bool)
unfolding existing admit_new
admit_at f ready ids business s (some run_id) = existing s run_id
admit_at f ready ids business s none = admit_new f ready ids business s

unfoldable pub admit_ids : Formats → Bool → List Text → Store → Result (Store × Option Run × Bool)
admit_ids f ready [] s = ok (s, none, false)
admit_ids f ready (id ∷ ids) s =
    let business = business_key f (id ∷ ids) in
    admit_at f ready (id ∷ ids) business s (lookup business s.business)

unfoldable pub admit :
    Formats → List Observation → Bool → Store → Result (Store × Option Run × Bool)
unfolding observe_all sort_texts unique admit_ids admit_at business_key
admit f obs ready s =
    guard (not (leb (length obs) 0) && not (ltb 100 (length obs))) invalid
    >> observe_all f obs s
    >>= λ e. admit_ids f ready (unique (sort_texts e.1)) e.0
