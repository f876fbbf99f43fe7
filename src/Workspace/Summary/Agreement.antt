-- ===== src/Workspace/Summary/Agreement.antt =====
-- The buckets and the totals in the loops of SummaryWindow in internal/workspace/readmodel.go.
use oncall_agent.Prelude.{
  ℕ, ◌+◌, ◌≤◌, false, [], ◌∷◌, Text, ◌==◌, text_eq, nat_eq, All, text_lt, if_elim, ◌≡◌, refl, arith,
}
use oncall_agent.Workspace.State.{Run}
use oncall_agent.Workspace.Summary.{
  Bucket, Days, empty_bucket, change_bucket, Totals, count, is_cited, sample, add_run, tally,
  add_received, insert_day, history, sampled, lasted, is_success,
}

unfoldable pub sum_of : (Bucket → ℕ) → Days → ℕ
sum_of f [] = 0
sum_of f (d ∷ ds) = f d.1 + sum_of f ds

pub change_bucket-sum :
    (f : Bucket → ℕ) (g : Bucket → Bucket) (k : ℕ) (day : Text) (ds : Days) (z : f empty_bucket ≡ 0)
    (h : (b : Bucket) → f (g b) ≡ k + f b)
    → sum_of f (change_bucket g day ds) ≡ k + sum_of f ds
unfolding change_bucket sum_of
change_bucket-sum f g k day [] z h = omega (arith, h empty_bucket)
change_bucket-sum f g k day ((d, b) ∷ ds) z h =
    if_elim (λ e. sum_of f e ≡ k + sum_of f ((d, b) ∷ ds)) (d == day) _ _ (omega (arith, h b))
      (omega (arith, change_bucket-sum f g k day ds z h))

-- Every bucket has a day.
abbrev pub IsNamed : Days → Type 0
IsNamed ds = All (λ (d : Text × Bucket). (d.0 == []) ≡ false) ds

pub change_bucket-IsNamed :
    (g : Bucket → Bucket) (day : Text) (ds : Days) (n : (day == []) ≡ false)
    → IsNamed ds
    → IsNamed (change_bucket g day ds)
unfolding change_bucket
change_bucket-IsNamed g day [] n h = (n, tt)
change_bucket-IsNamed g day ((d, b) ∷ ds) n h =
    if_elim IsNamed (d == day) _ _ h (h.0, change_bucket-IsNamed g day ds n h.1)

insert_day-sum :
    (f : Bucket → ℕ) (d : Text × Bucket) (ds : Days)
    → sum_of f (insert_day d ds) ≡ f d.1 + sum_of f ds
unfolding insert_day sum_of
insert_day-sum f d [] = refl
insert_day-sum f d (e ∷ es) =
    if_elim (λ x. sum_of f x ≡ f d.1 + sum_of f (e ∷ es)) (text_lt e.0 d.0) _ _
      (omega (arith, insert_day-sum f d es)) refl

pub history-sum : (f : Bucket → ℕ) (ds : Days) → IsNamed ds → sum_of f (history ds) ≡ sum_of f ds
unfolding history sum_of
history-sum f [] n = refl
history-sum f (d ∷ ds) n =
    rw n.0 omega (arith, insert_day-sum f d (history ds), history-sum f ds n.1)

-- The totals are those of the buckets, which hold `received` incidents.
unfoldable pub Agree : ℕ → Totals → Type 0
unfolding sum_of
Agree received t =
    IsNamed t.days
    × (sum_of (λ b. b.received) t.days ≡ received)
    × (sum_of (λ b. b.succeeded) t.days ≡ t.success)
    × (sum_of (λ b. b.cited) t.days ≡ t.cited)
    × (sum_of (λ b. b.samples) t.days ≡ t.samples)
    × (sum_of (λ b. b.duration) t.days ≡ t.total)
    × (t.cited ≤ t.success)

is_cited-le : (r : Run) → count (is_cited r) ≤ count (is_success r.status)
unfolding is_cited
is_cited-le r = ground arith

pub tally-Agree :
    (n : ℕ) (r : Run) (day : Text) (t : Totals) (d : (day == []) ≡ false)
    → Agree n t
    → Agree n (tally r day t)
unfolding tally add_run Agree
tally-Agree n r day t d (named, received, succeeded, cited, samples, duration, le) =
    let s = count (is_success r.status) in
    let c = count (is_cited r) in
    let m = sampled (sample r.status r.duration_ms) in
    let l = lasted (sample r.status r.duration_ms) in
    (
      change_bucket-IsNamed (add_run r) day t.days d named,
      omega (
        arith,
        received,
        change_bucket-sum (λ b. b.received) (add_run r) 0 day t.days refl (λ b. omega arith),
      ),
      omega (
        arith,
        succeeded,
        change_bucket-sum (λ b. b.succeeded) (add_run r) s day t.days refl (λ b. omega arith),
      ),
      omega (
        arith,
        cited,
        change_bucket-sum (λ b. b.cited) (add_run r) c day t.days refl (λ b. omega arith),
      ),
      omega (
        arith,
        samples,
        change_bucket-sum (λ b. b.samples) (add_run r) m day t.days refl (λ b. omega arith),
      ),
      omega (
        arith,
        duration,
        change_bucket-sum (λ b. b.duration) (add_run r) l day t.days refl (λ b. omega arith),
      ),
      omega (arith, le, is_cited-le r),
    )

-- The buckets before the runs are counted.
unfoldable pub Received : ℕ → Days → Type 0
unfolding Agree
Received n ds = Agree n (record { success = 0; cited = 0; samples = 0; total = 0; days = ds })

pub add_received-Received :
    (n : ℕ) (day : Text) (ds : Days) (d : (day == []) ≡ false)
    → Received n ds
    → Received (n + 1) (change_bucket add_received day ds)
unfolding Received Agree
add_received-Received n day ds d (named, received, succeeded, cited, samples, duration, le) = (
  change_bucket-IsNamed add_received day ds d named,
  omega (
    arith,
    received,
    change_bucket-sum (λ b. b.received) add_received 1 day ds refl (λ b. omega arith),
  ),
  omega (
    arith,
    succeeded,
    change_bucket-sum (λ b. b.succeeded) add_received 0 day ds refl (λ b. omega arith),
  ),
  omega (
    arith,
    cited,
    change_bucket-sum (λ b. b.cited) add_received 0 day ds refl (λ b. omega arith),
  ),
  omega (
    arith,
    samples,
    change_bucket-sum (λ b. b.samples) add_received 0 day ds refl (λ b. omega arith),
  ),
  omega (
    arith,
    duration,
    change_bucket-sum (λ b. b.duration) add_received 0 day ds refl (λ b. omega arith),
  ),
  le,
)
