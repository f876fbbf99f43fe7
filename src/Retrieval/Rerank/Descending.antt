-- ===== src/Retrieval/Rerank/Descending.antt =====
-- What Rerank of internal/rag/rerank.go does with the candidates.
use mathlib.Core.List.{Perm}
use mathlib.Core.List.Perm
use oncall_agent.Prelude.{
  ℕ, ◌+◌, Bool, true, false, Option, none, some, List, [], ◌∷◌, Text, is_empty, length, lookup,
  trim_space, if_elim, ◌≡◌, refl, ap, subst, Bool-cases, Option-cases, inl, inr, arith, nat_eq,
}
use oncall_agent.Retrieval.Rerank.{
  ℤ, Hit, RerankError, Scores, failed, scores, scored, score_all, is_hit, insert_hit, sort_hits,
  top, Floats, parse_reply, ranked, rerank,
}

module _ {S : Type 0} where
  abbrev pub or_score : S → Option S → S
  or_score old none = old
  or_score old (some new) = new

  -- Each candidate with the score of its index, where there is one, from the index `i` on.
  unfoldable pub rescored : List (ℕ × S) → ℕ → List (Hit S) → List (Hit S)
  rescored m i [] = []
  rescored m i (h ∷ hs) = record h { score = or_score h.score (lookup i m) } ∷ rescored m (i + 1) hs

  -- The candidates with the scores of a reply; without scores there is no ranking, but of no candidates.
  unfoldable pub rescored_by : Scores (List (ℕ × S)) → List (Hit S) → List (Hit S)
  unfolding rescored
  rescored_by (failed e) hs = []
  rescored_by (scores m) hs = rescored m 0 hs

  -- No hit is followed by one with a greater score.
  unfoldable pub IsDescending : (S → S → Bool) → List (Hit S) → Type 0
  IsDescending lt [] = Unit
  IsDescending lt (h ∷ []) = Unit
  IsDescending lt (h ∷ g ∷ gs) = (lt h.score g.score ≡ false) × IsDescending lt (g ∷ gs)

  insert_hit-Perm :
      (lt : S → S → Bool) (h : Hit S) (gs : List (Hit S)) → Perm (insert_hit lt h gs) (h ∷ gs)
  unfolding insert_hit
  insert_hit-Perm lt h [] = Perm.refl _
  insert_hit-Perm lt h (g ∷ gs) =
      if_elim (λ l. Perm l (h ∷ g ∷ gs)) (lt h.score g.score) _ _
        (Perm.trans (Perm.cons g (insert_hit-Perm lt h gs)) (Perm.swap h g gs)) (Perm.refl _)

  sort_hits-Perm : (lt : S → S → Bool) (hs : List (Hit S)) → Perm (sort_hits lt hs) hs
  unfolding sort_hits
  sort_hits-Perm lt [] = Perm.refl _
  sort_hits-Perm lt (h ∷ hs) =
      Perm.trans (insert_hit-Perm lt h (sort_hits lt hs)) (Perm.cons h (sort_hits-Perm lt hs))

  score_all-rescored :
      (m : List (ℕ × S)) (i : ℕ) (hs : List (Hit S)) → score_all m i hs ≡ rescored m i hs
  unfolding score_all scored rescored
  score_all-rescored m i [] = refl
  score_all-rescored m i (h ∷ hs) = elim (Option-cases (lookup i m)) [
    | inl e ↦ rw e (ap (λ l. h ∷ l) (score_all-rescored m (i + 1) hs))
    | inr (s, e) ↦ rw e (ap (λ l. record h { score = s } ∷ l) (score_all-rescored m (i + 1) hs))
  ]

  module _ (lt : S → S → Bool) (asym : (a b : S) (e : lt a b ≡ true) → lt b a ≡ false) where
    rest-IsDescending :
        (g : Hit S) (gs : List (Hit S)) → IsDescending lt (g ∷ gs) → IsDescending lt gs
    unfolding IsDescending
    rest-IsDescending g [] d = tt
    rest-IsDescending g (f ∷ fs) d = d.1

    -- The list goes on from a hit with at least its scores.
    insert_hit-after :
        (g h : Hit S) (gs : List (Hit S)) (k : lt g.score h.score ≡ false)
        → IsDescending lt (g ∷ gs)
        → IsDescending lt (insert_hit lt h gs)
        → IsDescending lt (g ∷ insert_hit lt h gs)
    unfolding insert_hit IsDescending
    insert_hit-after g h [] k d i = (k, tt)
    insert_hit-after g h (f ∷ fs) k d i =
        if_elim (λ l. IsDescending lt l → IsDescending lt (g ∷ l)) (lt h.score f.score) _ _
          (λ i. (d.0, i)) (λ i. (k, i)) i

    insert_hit-IsDescending :
        (h : Hit S) (gs : List (Hit S)) → IsDescending lt gs → IsDescending lt (insert_hit lt h gs)
    unfolding insert_hit IsDescending
    insert_hit-IsDescending h [] d = tt
    insert_hit-IsDescending h (g ∷ gs) d = elim (Bool-cases (lt h.score g.score)) [
      | inl e ↦ rw e (
          insert_hit-after g h gs (asym h.score g.score e) d
            (insert_hit-IsDescending h gs (rest-IsDescending g gs d)))
      | inr e ↦ rw e (e, d)
    ]

    sort_hits-IsDescending : (hs : List (Hit S)) → IsDescending lt (sort_hits lt hs)
    unfolding sort_hits IsDescending
    sort_hits-IsDescending [] = tt
    sort_hits-IsDescending (h ∷ hs) =
        insert_hit-IsDescending h (sort_hits lt hs) (sort_hits-IsDescending hs)

  -- An error comes with the candidates as they were. Without one the answer is the top of a list of the
  -- candidates with the scores of the reply, by descending score.
  unfoldable pub Ranks :
      (S → S → Bool)
      → Scores (List (ℕ × S))
      → List (Hit S)
      → ℕ
      → List (Hit S) × Option RerankError
      → Type 0
  unfolding IsDescending rescored_by
  Ranks lt parsed cands k (hs, some e) = hs ≡ cands
  Ranks lt parsed cands k (hs, none) =
      (sorted : List (Hit S)) × (hs ≡ top k sorted)
      × IsDescending lt sorted
      × Perm sorted (rescored_by parsed cands)

module _ {F S : Type 0} (f : Floats F S)
    (asym : (a b : S) (e : f.less a b ≡ true) → f.less b a ≡ false) where
  ranked-Ranks :
      (cands : List (Hit S)) (k : ℕ) (m : Scores (List (ℕ × S)))
      → Ranks f.less m cands k (ranked f cands k m)
  unfolding ranked Ranks rescored_by
  ranked-Ranks cands k (failed e) = refl
  ranked-Ranks cands k (scores m) =
      if_elim (Ranks f.less (scores m) cands k) (is_hit m 0 cands) _ _
        (
          sort_hits f.less (score_all m 0 cands),
          refl,
          sort_hits-IsDescending f.less asym (score_all m 0 cands),
          subst (λ l. Perm (sort_hits f.less (score_all m 0 cands)) l)
              (score_all-rescored m 0 cands) (sort_hits-Perm f.less (score_all m 0 cands)),
        )
        refl

  none-Ranks : (m : Scores (List (ℕ × S))) (k : ℕ) → Ranks f.less m [] k ([], none)
  unfolding Ranks top IsDescending rescored_by rescored
  none-Ranks (failed e) k = ([], ground arith, tt, Perm.refl [])
  none-Ranks (scores m) k = ([], ground arith, tt, Perm.refl [])

  -- Where no two scores are each less than the other, Rerank answers an error with the candidates as
  -- they were, or without an error: then the answer is the top of a list that permutes the candidates,
  -- each with the score that the model's reply gives its index, where it gives one, and in which no
  -- hit is followed by one with a greater score.
  pub rerank-Ranks :
      (decode : Text → Option (List (ℤ × F))) (reply : Text → List (Hit S) → Option Text)
      (query : Text) (cands : List (Hit S)) (k : ℕ)
      → Ranks f.less
          (parse_reply f decode (length cands) (reply query cands))
          cands
          k
          (rerank f decode reply query cands k)
  unfolding rerank Ranks
  rerank-Ranks decode reply query [] k = none-Ranks (parse_reply f decode 0 (reply query [])) k
  rerank-Ranks decode reply query (c ∷ cs) k =
      let parsed = parse_reply f decode (length (c ∷ cs)) (reply query (c ∷ cs)) in
      if_elim (Ranks f.less parsed (c ∷ cs) k) (is_empty (trim_space query)) _ _ refl
        (ranked-Ranks (c ∷ cs) k parsed)
