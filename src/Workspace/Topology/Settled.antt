-- ===== src/Workspace/Topology/Settled.antt =====
-- The ids that a round of the first loop of `ForService` visits, and those that wait.
use oncall_agent.Prelude.{
  Bool, true, false, List, [], ◌∷◌, Text, if◌then◌else◌, ◌==◌, text_eq, text_beq_iff, has, ◌≡◌,
  refl, arith, has-append, Bool-cases, inl, inr, All, if_elim,
}
use oncall_agent.Workspace.Topology.{Edge, Walk, reach, scan_both}

-- A set of ids with neither or both ends of each edge.
abbrev pub IsClosed : (Text → Bool) → List Edge → Type 0
IsClosed p = All (λ e. p e.source ≡ p e.target)

-- What was seen of one walk is seen of a later one, and what is new waits in the queue.
pub record Later (w w' : Walk) : Type 0 where
  pub visited : (j : Text) → has j w.visited ≡ true → has j w'.visited ≡ true
  pub queued : (j : Text) → has j w.queue ≡ true → has j w'.queue ≡ true
  pub waits : (j : Text) → has j w'.visited ≡ true → has j w'.queue ≡ false → has j w.visited ≡ true

Later-refl : (w : Walk) → Later w w
Later-refl w = record { visited = λ j k. k; queued = λ j k. k; waits = λ j k l. k }

Later-trans : {a b c : Walk} → Later a b → Later b c → Later a c
Later-trans {a} {b} {c} h k = record {
  visited = λ j l. k.visited j (h.visited j l);
  queued = λ j l. k.queued j (h.queued j l);
  waits = λ j l n. h.waits j (k.waits j l n) (elim (Bool-cases (has j b.queue)) [
    | inl q ↦ absurd (ground (arith, k.queued j q, n))
    | inr q ↦ q
  ]);
}

reach-Later : (id : Text) (w : Walk) → Later w (reach id w)
unfolding reach
reach-Later id w = elim (Bool-cases (has id w.visited)) [
  | inl old ↦ rw old (Later-refl w)
  | inr new ↦ rw new (record {
    visited = λ j k. ground (arith, k);
    queued = λ j k. ground (arith, k, has-append j w.queue (id ∷ []));
    waits = λ j k l. ground (arith, k, l, has-append j w.queue (id ∷ []));
  })
]

reach-has : (id : Text) (w : Walk) → has id (reach id w).visited ≡ true
unfolding reach
reach-has id w = ground (arith, text_beq_iff id id)

-- The neighbours of an id among the edges are visited.
abbrev AreNear : Text → Walk → List Edge → Type 0
AreNear id w = All (λ e.
    ((e.source == id) ≡ true → has e.target w.visited ≡ true)
    × ((e.target == id) ≡ true → has e.source w.visited ≡ true))

module _ (e : Edge) (id : Text) (w : Walk) where
  abbrev pub forward : Walk
  forward = if e.source == id then reach e.target w else w

  abbrev pub both : Walk
  both = if e.target == id then reach e.source forward else forward

  forward-Later : Later w forward
  forward-Later = if_elim (Later w) (e.source == id) _ _ (reach-Later e.target w) (Later-refl w)

  both-Later : Later forward both
  both-Later =
      if_elim (Later forward) (e.target == id) _ _ (reach-Later e.source forward)
        (Later-refl forward)

  forward-has : (e.source == id) ≡ true → has e.target both.visited ≡ true
  forward-has q = both-Later.visited e.target (rw q (reach-has e.target w))

  both-has : (e.target == id) ≡ true → has e.source both.visited ≡ true
  both-has q = rw q (reach-has e.source forward)

pub scan_both-Later : (es : List Edge) (id : Text) (w : Walk) → Later w (scan_both es id w)
unfolding scan_both
scan_both-Later [] id w = Later-refl w
scan_both-Later (e ∷ es) id w =
    Later-trans (forward-Later e id w)
      (Later-trans (both-Later e id w) (scan_both-Later es id (both e id w)))

pub scan_both-AreNear : (es : List Edge) (id : Text) (w : Walk) → AreNear id (scan_both es id w) es
unfolding scan_both
scan_both-AreNear [] id w = tt
scan_both-AreNear (e ∷ es) id w =
    let later = scan_both-Later es id (both e id w) in
    (
      (
        λ q. later.visited e.target (forward-has e id w q),
        λ q. later.visited e.source (both-has e id w q),
      ),
      scan_both-AreNear es id (both e id w),
    )

-- The neighbours of an id that was visited, and that waits no more, are visited.
abbrev pub AreSettled : Walk → List Edge → Type 0
AreSettled w = All (λ e.
    (has e.source w.visited ≡ true → has e.source w.queue ≡ false → has e.target w.visited ≡ true)
    × (has e.target w.visited ≡ true
        → has e.target w.queue ≡ false
        → has e.source w.visited ≡ true))

-- One end of an edge after a round.
settle_end :
    (id : Text) (queue : List Text) (w w' : Walk) (a b : Text)
    → w.queue ≡ id ∷ queue
    → Later (record w { queue = queue }) w'
    → ((a == id) ≡ true → has b w'.visited ≡ true)
    → (has a w.visited ≡ true → has a w.queue ≡ false → has b w.visited ≡ true)
    → has a w'.visited ≡ true
    → has a w'.queue ≡ false
    → has b w'.visited ≡ true
settle_end id queue w w' a b q later near settled v n = elim (Bool-cases (a == id)) [
  | inl same ↦ near same
  | inr other ↦
      let waits : has a queue ≡ false = elim (Bool-cases (has a queue)) [
        | inl k ↦ absurd (ground (arith, later.queued a k, n))
        | inr k ↦ k
      ] in
      later.visited b (
        settled (later.waits a v n)
          (rw q (ground (arith, waits, other, text_beq_iff a id, text_beq_iff id a))))
]

pub AreSettled-next :
    (id : Text) (queue : List Text) (w w' : Walk) (es : List Edge)
    → w.queue ≡ id ∷ queue
    → Later (record w { queue = queue }) w'
    → AreNear id w' es
    → AreSettled w es
    → AreSettled w' es
AreSettled-next id queue w w' [] q l n s = tt
AreSettled-next id queue w w' (e ∷ es) q l n s = (
  (
    settle_end id queue w w' e.source e.target q l n.0.0 s.0.0,
    settle_end id queue w w' e.target e.source q l n.0.1 s.0.1,
  ),
  AreSettled-next id queue w w' es q l n.1 s.1,
)

-- With an empty queue the visited ids are closed.
pub AreSettled-IsClosed :
    (w : Walk) (es : List Edge)
    → w.queue ≡ []
    → AreSettled w es
    → IsClosed (λ j. has j w.visited) es
AreSettled-IsClosed w [] q s = tt
AreSettled-IsClosed w (e ∷ es) q s =
    let go : has e.source w.visited ≡ true → has e.target w.visited ≡ true =
      λ k. s.0.0 k (rw q refl) in
    let back : has e.target w.visited ≡ true → has e.source w.visited ≡ true =
      λ k. s.0.1 k (rw q refl) in
    (ground (arith, go, back), AreSettled-IsClosed w es q s.1)
