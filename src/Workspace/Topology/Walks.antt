-- ===== src/Workspace/Topology/Walks.antt =====
-- The rounds of the two loops of `ForService`.
use oncall_agent.Prelude.{
  List-cases, ℕ, zero, suc, ◌+◌, ◌*◌, ◌-◌, ◌≤◌, ◌<◌, Bool, true, List, [], ◌∷◌, ◌++◌, Text,
  if◌then◌else◌, ◌==◌, text_eq, text_beq_iff, length, has, ◌≡◌, refl, arith, Distinct,
  length-append, Bool-cases, inl, inr, if_elim, ◌≢◌, lookup, insert, length-Distinct-le, keep,
}
use oncall_agent.Workspace.Topology.{
  Edge, Walk, reach, scan_both, reach_by, scan_up, Ended, finished, cancelled, out_of_fuel, walk,
  ends, from_focus, fuel, around, upstream, Moment, Snapshot, Node, answer, unbounded, view_of,
  for_service, active_edges, is_named, or_none,
}

-- What was visited is distinct and within a universe of ids.
record IsWithin (u : List Text) (w : Walk) : Type 0 where
  apart : Distinct w.visited
  inside : (j : Text) → has j w.visited ≡ true → has j u ≡ true

-- As many ids were queued as visited.
record Grows (u : List Text) (w w' : Walk) : Type 0 where
  within : IsWithin u w'
  balance : length w'.queue + length w.visited ≡ length w.queue + length w'.visited

Grows-refl : (u : List Text) (w : Walk) → IsWithin u w → Grows u w w
Grows-refl u w h = record { within = h; balance = refl }

Grows-trans : {u : List Text} {a b c : Walk} → Grows u a b → Grows u b c → Grows u a c
Grows-trans h k = record { within = k.within; balance = omega (arith, h.balance, k.balance) }

reach-Grows :
    (u : List Text) (id : Text) (w : Walk) → has id u ≡ true → IsWithin u w → Grows u w (reach id w)
unfolding reach
reach-Grows u id w i h = elim (Bool-cases (has id w.visited)) [
  | inl old ↦ rw old (Grows-refl u w h)
  | inr new ↦ rw new (record {
    within = record {
      apart = (new, h.apart);
      inside = λ j k. ground (arith, k, i, h.inside j, text_beq_iff id j);
    };
    balance = omega (arith, length-append w.queue (id ∷ []));
  })
]

-- A scan of a list of edges whose ends are in the universe.
abbrev AreEnds : List Text → List Edge → Type 0
AreEnds u [] = Unit
AreEnds u (e ∷ es) = (has e.source u ≡ true) × (has e.target u ≡ true) × AreEnds u es

scan_both-Grows :
    (u : List Text) (es : List Edge) (id : Text) (w : Walk)
    → AreEnds u es
    → IsWithin u w
    → Grows u w (scan_both es id w)
unfolding scan_both
scan_both-Grows u [] id w a h = Grows-refl u w h
scan_both-Grows u (e ∷ es) id w (s, t, a) h =
    let forward = if e.source == id then reach e.target w else w in
    let g1 : Grows u w forward =
      if_elim (Grows u w) (e.source == id) _ _ (reach-Grows u e.target w t h) (Grows-refl u w h) in
    let both = if e.target == id then reach e.source forward else forward in
    let g2 : Grows u forward both =
      if_elim (Grows u forward) (e.target == id) _ _ (reach-Grows u e.source forward s g1.within)
        (Grows-refl u forward g1.within) in
    Grows-trans g1 (Grows-trans g2 (scan_both-Grows u es id both a g2.within))

reach_by-Grows :
    (u : List Text) (id : Text) (e : Edge) (w : Walk)
    → has e.source u ≡ true
    → IsWithin u w
    → Grows u w (reach_by id e w)
unfolding reach_by
reach_by-Grows u id e w s h =
    let refs = or_none (lookup id w.refs) ++ e.source_ref ∷ [] in
    let noted : Walk = record w { refs = insert e.source refs w.refs } in
    let g = reach-Grows u e.source noted s (record { apart = h.apart; inside = h.inside }) in
    if_elim (Grows u w) (has e.source w.visited) _ _ (Grows-refl u w h)
      (record { within = g.within; balance = g.balance })

scan_up-Grows :
    (u : List Text) (es : List Edge) (id : Text) (w : Walk)
    → AreEnds u es
    → IsWithin u w
    → Grows u w (scan_up es id w)
unfolding scan_up
scan_up-Grows u [] id w a h = Grows-refl u w h
scan_up-Grows u (e ∷ es) id w (s, t, a) h =
    let next = if e.target == id then reach_by id e w else w in
    let g : Grows u w next =
      if_elim (Grows u w) (e.target == id) _ _ (reach_by-Grows u id e w s h) (Grows-refl u w h) in
    Grows-trans g (scan_up-Grows u es id next a g.within)

visited-le : (u : List Text) (w : Walk) → IsWithin u w → length w.visited ≤ length u
visited-le u w h = length-Distinct-le w.visited u h.apart h.inside

-- The rounds that are still to come.
abbrev left : List Text → Walk → ℕ
left u w = length w.queue + (length u - length w.visited)

abbrev NotOut : Ended → Type 0
NotOut e = e ≡ out_of_fuel → ⊥

walk-NotOut :
    (u : List Text) (scan : Text → Walk → Walk) (done : List Text → Bool) (n : ℕ) (w : Walk)
    → ((id : Text) (v : Walk) → IsWithin u v → Grows u v (scan id v))
    → IsWithin u w
    → left u w < n
    → NotOut (walk scan done n w)
unfolding walk
walk-NotOut u scan done zero w g h l = absurd (omega (arith, l))
walk-NotOut u scan done (suc n) w g h l = elim (List-cases w.queue) [
  | inl e ↦ rw (e, walk) (λ q. absurd (ground (arith, q)))
  | inr (id, queue, e) ↦
      let popped : Walk = record w { queue = queue } in
      let inside : IsWithin u popped = record { apart = h.apart; inside = h.inside } in
      let grown = g id popped inside in
      let shorter : length w.queue ≡ suc (length queue) = rw e refl in
      let rest = walk-NotOut u scan done n (scan id popped) g grown.within (
        omega (
          arith,
          l,
          shorter,
          grown.balance,
          visited-le u w h,
          visited-le u (scan id popped) grown.within,
        )) in
      rw (e, walk) (if_elim NotOut (done w.visited) _ _ (λ q. absurd (ground (arith, q))) rest)
]

-- The ids that can be visited.
AreEnds-later :
    (u v : List Text) (es : List Edge)
    → ((j : Text) → has j u ≡ true → has j v ≡ true)
    → AreEnds u es
    → AreEnds v es
AreEnds-later u v [] f a = tt
AreEnds-later u v (e ∷ es) f (s, t, a) = (f e.source s, f e.target t, AreEnds-later u v es f a)

ends-AreEnds : (es : List Edge) → AreEnds (ends es) es
unfolding ends
ends-AreEnds [] = tt
ends-AreEnds (e ∷ es) = (
  ground (arith, text_beq_iff e.source e.source),
  ground (arith, text_beq_iff e.target e.target),
  AreEnds-later (ends es) (ends (e ∷ es)) es (λ j k. ground (arith, k)) (ends-AreEnds es),
)

length-ends : (es : List Edge) → length (ends es) ≡ 2 * length es
unfolding ends
length-ends [] = refl
length-ends (e ∷ es) = omega (arith, length-ends es)

module _ (m : Moment) (es : List Edge) (focus : Text) where
  universe : List Text
  universe = focus ∷ ends es

  universe-AreEnds : AreEnds universe es
  unfolding universe
  universe-AreEnds =
      AreEnds-later (ends es) universe es (λ j k. ground (arith, k)) (ends-AreEnds es)

  from_focus-IsWithin : IsWithin universe (from_focus focus)
  unfolding universe from_focus
  from_focus-IsWithin = record { apart = (refl, tt); inside = λ j k. ground (arith, k) }

  fuel_enough : left universe (from_focus focus) < fuel es
  unfolding universe from_focus fuel
  fuel_enough = omega (arith, length-ends es)

  -- Both loops end, whatever the edges are: the fuel is never used up.
  pub walks-NotOut : (around m es focus ≢ out_of_fuel) × (upstream m es focus ≢ out_of_fuel)
  unfolding around upstream
  walks-NotOut = (
    walk-NotOut universe (scan_both es) m.done (fuel es) (from_focus focus)
        (λ id v h. scan_both-Grows universe es id v universe-AreEnds h) from_focus-IsWithin
        fuel_enough,
    walk-NotOut universe (scan_up es) m.done (fuel es) (from_focus focus)
        (λ id v h. scan_up-Grows universe es id v universe-AreEnds h) from_focus-IsWithin
        fuel_enough,
  )

answer-bounded :
    (s : Snapshot) (es : List Edge) (focus : Text) (a b : Ended)
    → (a ≢ out_of_fuel)
    → (b ≢ out_of_fuel)
    → answer s es focus a b ≢ unbounded
unfolding answer
answer-bounded s es focus (finished v) (finished w) h k q = absurd (ground (arith, q))
answer-bounded s es focus (finished v) cancelled h k q = absurd (ground (arith, q))
answer-bounded s es focus (finished v) out_of_fuel h k q = k refl
answer-bounded s es focus cancelled b h k q = absurd (ground (arith, q))
answer-bounded s es focus out_of_fuel b h k q = h refl

view_of-bounded : (m : Moment) (s : Snapshot) (ns : List Node) → view_of m s ns ≢ unbounded
unfolding view_of
view_of-bounded m s [] q = absurd (ground (arith, q))
view_of-bounded m s (n ∷ []) q =
    let es = active_edges m s in
    let (h, k) = walks-NotOut m es n.id in
    answer-bounded s es n.id (around m es n.id) (upstream m es n.id) h k q
view_of-bounded m s (n ∷ o ∷ ns) q = absurd (ground (arith, q))

-- `ForService` always ends with an answer or one of its errors, whatever nodes and edges are declared,
-- cycles included: each of its loops takes at most one round for the focus and for each end of an
-- edge.
pub for_service-bounded :
    (m : Moment) (s : Snapshot) (environment service : Text)
    → for_service m s environment service ≢ unbounded
unfolding for_service
for_service-bounded m s environment service =
    if_elim (λ a. a ≢ unbounded) (m.done []) _ _ (λ q. absurd (ground (arith, q)))
      (view_of-bounded m s (keep (is_named environment service) s.nodes))
