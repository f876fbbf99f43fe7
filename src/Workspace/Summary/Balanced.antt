-- ===== src/Workspace/Summary/Balanced.antt =====
-- The answer of SummaryWindow in internal/workspace/readmodel.go.
use oncall_agent.Prelude.{
  ℕ, ◌+◌, ◌≤◌, false, Option, List, [], ◌∷◌, Text, ◌==◌, text_eq, text_beq, nat_eq, if_elim, ◌≡◌,
  refl, Option-cases, inl, inr, arith, ap, ◌∙◌, subst,
}
use oncall_agent.Workspace.State.{RunRow, Result, ok, err, ◌>>=◌}
use oncall_agent.Workspace.Admission.{Incident, Store}
use oncall_agent.Workspace.Summary.{
  Days, change_bucket, Latest, Totals, is_included, is_outside, add_received, quotient, Summary,
  summary, bound, receive_all, count_runs, summary_window, latest, sampled, must_parse,
}
use oncall_agent.Workspace.Summary.Agreement.{
  sum_of, Agree, Received, history-sum, tally-Agree, add_received-Received,
}

unfoldable pub IsBalanced : ℕ → Summary → Type 0
unfolding sum_of
IsBalanced received v =
    (sum_of (λ b. b.received) v.history ≡ received)
    × (sum_of (λ b. b.succeeded) v.history ≡ v.succeeded_runs)
    × (sum_of (λ b. b.cited) v.history ≡ v.cited_succeeded_runs)
    × (sum_of (λ b. b.samples) v.history ≡ v.latency_samples)
    × (quotient (sum_of (λ b. b.duration) v.history) v.latency_samples ≡ v.mean_diagnosis_ms)
    × (quotient v.cited_succeeded_runs v.succeeded_runs ≡ v.citation_coverage)
    × (v.cited_succeeded_runs ≤ v.succeeded_runs)

summary-IsBalanced : (n : ℕ) (l : Latest) (t : Totals) → Agree n t → IsBalanced n (summary l t)
unfolding summary Agree IsBalanced
summary-IsBalanced n l t (named, received, succeeded, cited, samples, duration, le) = (
  history-sum _ t.days named ∙ received,
  history-sum _ t.days named ∙ succeeded,
  history-sum _ t.days named ∙ cited,
  history-sum _ t.days named ∙ samples,
  ap (λ d. quotient d t.samples) (history-sum _ t.days named ∙ duration),
  refl,
  le,
)

-- The value of an operation, where it has one.
abbrev Yields {ℓ κ} : {A : Type ℓ} → (A → Type κ) → Result A → Type κ
Yields P (err e) = Unit
Yields P (ok a) = P a

then-Yields {ℓ κ μ} :
    {A : Type ℓ} {B : Type μ} (P : B → Type κ) (m : Result A) (rest : A → Result B)
    (h : (a : A) → Yields P (rest a))
    → Yields P (m >>= rest)
then-Yields P (err e) rest h = tt
then-Yields P (ok a) rest h = h a

chain-Yields {ℓ κ μ ν} :
    {A : Type ℓ} {B : Type μ} (P : A → Type ν) (Q : B → Type κ) (m : Result A) (rest : A → Result B)
    (p : Yields P m) (h : (a : A) → P a → Yields Q (rest a))
    → Yields Q (m >>= rest)
chain-Yields P Q (err e) rest p h = tt
chain-Yields P Q (ok a) rest p h = h a p

module _ (parse_time : Text → Option ℕ) (format_day : ℕ → Text) where
  -- The incidents whose time of receipt can be read.
  unfoldable pub dated : List Incident → ℕ
  dated [] = 0
  dated (i ∷ is) = sampled (parse_time i.first_received_at) + dated is

  abbrev Receives : List Incident → ℕ → Days → Type 0
  Receives is n ds = Received (n + dated is) (receive_all parse_time format_day is ds)

  module _ (named : (t : ℕ) → (format_day t == []) ≡ false) where
    receive_all-Received :
        (is : List Incident) (n : ℕ) (ds : Days) → Received n ds → Receives is n ds
    unfolding receive_all dated text_beq
    receive_all-Received [] n ds h = subst (λ m. Received m ds) (omega arith) h
    receive_all-Received (i ∷ is) n ds h = elim (Option-cases (parse_time i.first_received_at)) [
      | inl e ↦ rw e (
          subst (λ m. Received m (receive_all parse_time format_day is ds)) (omega arith)
            (receive_all-Received is n ds h))
      | inr (t, e) ↦ rw e (
          rw (named t) (
            subst
              (λ m. Received m (
                receive_all parse_time format_day is
                  (change_bucket add_received (format_day t) ds)))
              (omega arith)
              (receive_all-Received is (n + 1) (change_bucket add_received (format_day t) ds)
                (add_received-Received n (format_day t) ds (named t) h))))
    ]

    count_runs-Agree :
        (n begin end : ℕ) (scope : List Incident) (rows : List (Text × RunRow)) (t : Totals)
        → Agree n t
        → Yields (Agree n) (count_runs parse_time format_day begin end scope rows t)
    unfolding count_runs
    count_runs-Agree n begin end scope [] t h = h
    count_runs-Agree n begin end scope ((id, row) ∷ rows) t h =
        if_elim (Yields (Agree n)) (is_included scope row.run) _ _
          (then-Yields (Agree n) (must_parse parse_time format_day (parse_time row.run.received_at))
            _
            (λ at. count_runs-Agree n begin end scope rows _ (
              if_elim (Agree n) (is_outside begin end at) t _ h
                (tally-Agree n row.run (format_day at) t (named at) h))))
          (count_runs-Agree n begin end scope rows t h)

    summary_window-Yields :
        (incidents : List Incident) (from to : Text) (s : Store)
        → Yields
            (IsBalanced (dated incidents))
            (summary_window parse_time format_day incidents from to s)
    unfolding summary_window Received
    summary_window-Yields incidents from to s =
        let n = dated incidents in
        let start : Received (0 + n) (receive_all parse_time format_day incidents []) =
          receive_all-Received incidents 0 [] (tt, refl, refl, refl, refl, refl, omega arith) in
        then-Yields (IsBalanced n) (bound parse_time format_day from) _ λ begin.
          then-Yields (IsBalanced n) (bound parse_time format_day to) _ λ end.
            then-Yields (IsBalanced n) (latest s incidents _) _ λ l.
              chain-Yields (Agree n) (IsBalanced n)
                (count_runs parse_time format_day begin end incidents s.db.runs _) _
                (count_runs-Agree n begin end incidents s.db.runs _ (
                  subst (λ m. Received m (receive_all parse_time format_day incidents []))
                    (omega arith) start))
                (λ t h. summary-IsBalanced n l t h)

    -- Where every day has a text, the figures that SummaryWindow returns agree with its history: the sums over
    -- the days of the received incidents, of the runs that succeeded, of the cited ones among them and of
    -- the samples are the incidents whose receipt can be read and the totals of the answer; the mean
    -- is the sum of the durations over the number of samples, the coverage is the cited runs over the
    -- succeeded ones, and no more runs are cited than succeeded.
    pub summary_window-IsBalanced :
        (incidents : List Incident) (from to : Text) (s : Store) (v : Summary)
        (e : summary_window parse_time format_day incidents from to s ≡ ok v)
        → IsBalanced (dated incidents) v
    summary_window-IsBalanced incidents from to s v e =
        subst (Yields (IsBalanced (dated incidents))) e (summary_window-Yields incidents from to s)
