-- ===== src/Workspace/Topology/Connected.antt =====
-- Which services the first loop of `ForService` visits.
use oncall_agent.Prelude.{
  List-cases, subst, ℕ, zero, suc, Bool, true, List, [], ◌∷◌, Text, ◌==◌, text_eq, text_beq_iff,
  has, ◌≡◌, arith, has-append, Bool-cases, inl, inr, if_elim,
}
use oncall_agent.Workspace.Topology.{
  Edge, Walk, reach, scan_both, Ended, finished, cancelled, out_of_fuel, walk, from_focus, fuel,
  around, Moment,
}
use oncall_agent.Workspace.Topology.Settled.{
  IsClosed, scan_both-Later, scan_both-AreNear, AreSettled, AreSettled-next, AreSettled-IsClosed,
  forward, both,
}

-- What holds where a walk has finished.
abbrev Finishes : (Walk → Type 0) → Ended → Type 0
Finishes P (finished w) = P w
Finishes P cancelled = Unit
Finishes P out_of_fuel = Unit

module _ (es : List Edge) (done : List Text → Bool) where
  -- The end of the loop: closed, and with what was visited before.
  abbrev Closes : Walk → Walk → Type 0
  Closes w v =
      IsClosed (λ j. has j v.visited) es
      × ((j : Text) → has j w.visited ≡ true → has j v.visited ≡ true)

  Closes-earlier :
      (a b : Walk) (e : Ended)
      → ((j : Text) → has j a.visited ≡ true → has j b.visited ≡ true)
      → Finishes (Closes b) e
      → Finishes (Closes a) e
  Closes-earlier a b (finished v) f (c, k) = (c, λ j l. k j (f j l))
  Closes-earlier a b cancelled f h = tt
  Closes-earlier a b out_of_fuel f h = tt

  walk-Closes :
      (n : ℕ) (w : Walk) → AreSettled w es → Finishes (Closes w) (walk (scan_both es) done n w)
  unfolding walk
  walk-Closes zero w s = tt
  walk-Closes (suc n) w s = elim (List-cases w.queue) [
    | inl e ↦ rw (e, walk) (AreSettled-IsClosed w es e s, λ j k. k)
    | inr (id, queue, e) ↦
        let popped : Walk = record w { queue = queue } in
        let w' = scan_both es id popped in
        let later = scan_both-Later es id popped in
        let settled = AreSettled-next id queue w w' es e later (scan_both-AreNear es id popped) s in
        rw (e, walk)
          (if_elim (Finishes (Closes w)) (done w.visited) _ _ tt
            (Closes-earlier w w' _ later.visited (walk-Closes n w' settled)))
  ]

  module _ (p : Text → Bool) where
    -- What was visited and what waits is in the set.
    record IsInside (w : Walk) : Type 0 where
      visited : (j : Text) → has j w.visited ≡ true → p j ≡ true
      queued : (j : Text) → has j w.queue ≡ true → p j ≡ true

    reach-IsInside : (id : Text) (w : Walk) → p id ≡ true → IsInside w → IsInside (reach id w)
    unfolding reach
    reach-IsInside id w i h = if_elim IsInside (has id w.visited) _ _ h (record {
      visited = λ j k. ground (arith, k, i, h.visited j, text_beq_iff id j);
      queued = λ j k.
          ground (arith, k, i, h.queued j, has-append j w.queue (id ∷ []), text_beq_iff id j);
    })

    scan_both-IsInside :
        (fs : List Edge) (id : Text) (w : Walk)
        → IsClosed p fs
        → p id ≡ true
        → IsInside w
        → IsInside (scan_both fs id w)
    unfolding scan_both
    scan_both-IsInside [] id w c i h = h
    scan_both-IsInside (e ∷ fs) id w c i h =
        let h1 : IsInside (forward e id w) = elim (Bool-cases (e.source == id)) [
          | inl q ↦
              rw q (reach-IsInside e.target w (ground (arith, i, c.0, text_beq_iff e.source id)) h)
          | inr q ↦ rw q h
        ] in
        let h2 : IsInside (both e id w) = elim (Bool-cases (e.target == id)) [
          | inl q ↦ rw q (
              reach-IsInside e.source (forward e id w)
                (ground (arith, i, c.0, text_beq_iff e.target id)) h1)
          | inr q ↦ rw q h1
        ] in
        scan_both-IsInside fs id (both e id w) c.1 i h2

    walk-IsInside :
        (n : ℕ) (w : Walk)
        → IsClosed p es
        → IsInside w
        → Finishes IsInside (walk (scan_both es) done n w)
    unfolding walk
    walk-IsInside zero w c h = tt
    walk-IsInside (suc n) w c h = elim (List-cases w.queue) [
      | inl e ↦ rw (e, walk) h
      | inr (id, queue, e) ↦
          let popped : Walk = record w { queue = queue } in
          let front : p id ≡ true = h.queued id (rw e (ground (arith, text_beq_iff id id))) in
          let inside : IsInside popped = record {
            visited = h.visited;
            queued = λ j k. h.queued j (rw e (ground (arith, k)));
          } in
          rw (e, walk)
            (if_elim (Finishes IsInside) (done w.visited) _ _ tt (
              walk-IsInside n (scan_both es id popped) c
                (scan_both-IsInside es id popped c front inside)))
    ]

from_focus-AreSettled : (focus : Text) (es : List Edge) → AreSettled (from_focus focus) es
unfolding from_focus
from_focus-AreSettled focus [] = tt
from_focus-AreSettled focus (e ∷ es) = (
  (λ k n. absurd (ground (arith, k, n)), λ k n. absurd (ground (arith, k, n))),
  from_focus-AreSettled focus es,
)

-- The first loop of `ForService`, when it finishes, has visited the component of the focus: the focus,
-- with neither or both ends of every active edge; and an id that it visited is in every set of ids
-- that has the focus and neither or both ends of every edge.
pub around-component :
    (m : Moment) (es : List Edge) (focus : Text) (w : Walk) (p : Text → Bool) (j : Text)
    → around m es focus ≡ finished w
    → p focus ≡ true
    → IsClosed p es
    → has j w.visited ≡ true
    → (has focus w.visited ≡ true) × IsClosed (λ i. has i w.visited) es × (p j ≡ true)
unfolding around from_focus
around-component m es focus w p j e f c k =
    let start = from_focus focus in
    let (closed, kept) =
      subst (Finishes (Closes es m.done start)) e
        (walk-Closes es m.done (fuel es) start (from_focus-AreSettled focus es)) in
    let inside : IsInside es m.done p start = record {
      visited = λ i l. ground (arith, l, f, text_beq_iff focus i);
      queued = λ i l. ground (arith, l, f, text_beq_iff focus i);
    } in
    let within =
      subst (Finishes (IsInside es m.done p)) e
        (walk-IsInside es m.done p (fuel es) start c inside) in
    (kept focus (ground (arith, text_beq_iff focus focus)), closed, within.visited j k)
