-- ===== src/Retrieval/Rerank/Bounded.antt =====
-- The scores that parseRerankScores of internal/rag/rerank.go reads.
use oncall_agent.Prelude.{
  ℕ, true, false, Option, none, some, List, [], ◌∷◌, Text, ◌||◌, lookup, is_empty, All, nat_eq, ltb,
  if_elim, ◌≡◌, refl, subst, Bool-cases, inl, inr,
}
use oncall_agent.Retrieval.Rerank.{
  ℤ, pos, negsuc, Floats, Scores, failed, scores, clamp_low, clamp, put_score, read_score,
  read_scores, or_empty, decoded, parse_rerank_scores, is_scored, array_of,
}

module _ {F S : Type 0} (f : Floats F S) where
  -- Neither below 0 nor above 10, before it is made a float32.
  unfoldable pub IsInRange : S → Type 0
  IsInRange s = (x : F) × (s ≡ f.narrow x) × (f.lt x f.zero_score ≡ false) × (f.lt f.ten x ≡ false)

  abbrev pub IsScore : ℕ → ℕ × S → Type 0
  IsScore n e = (ltb e.0 n ≡ true) × IsInRange e.1

  abbrev pub AreScores : ℕ → Scores (List (ℕ × S)) → Type 0
  AreScores n (failed e) = Unit
  AreScores n (scores m) = (is_empty m ≡ false) × All (IsScore n) m

  module _ (zeros : f.lt f.zero_score f.zero_score ≡ false) (tens : f.lt f.ten f.ten ≡ false)
      (low : f.lt f.ten f.zero_score ≡ false) where
    clamp_low-ge : (s : F) → f.lt (clamp_low f s) f.zero_score ≡ false
    unfolding clamp_low
    clamp_low-ge s = elim (Bool-cases (f.lt s f.zero_score)) [ inl e ↦ rw e zeros | inr e ↦ rw e e ]

    clamp-IsInRange : (s : F) → IsInRange (f.narrow (clamp f s))
    unfolding clamp IsInRange
    clamp-IsInRange s = elim (Bool-cases (f.lt f.ten (clamp_low f s))) [
      | inl e ↦ rw e (f.ten, refl, low, tens)
      | inr e ↦ rw e (clamp_low f s, refl, clamp_low-ge s, e)
    ]

    put_score-All :
        (n i : ℕ) (s : F) (m : List (ℕ × S))
        → All (IsScore n) m
        → All (IsScore n) (put_score f n i s m)
    unfolding put_score
    put_score-All n i s m h = elim (Bool-cases (ltb i n)) [
      | inl e ↦ rw e (
          if_elim (All (IsScore n)) (f.is_nan s || is_scored (lookup i m)) _ _ h
            ((e, clamp-IsInRange s), h))
      | inr e ↦ rw e h
    ]

    read_scores-All :
        (n : ℕ) (es : List (ℤ × F)) (m : List (ℕ × S))
        → All (IsScore n) m
        → All (IsScore n) (read_scores f n es m)
    unfolding read_scores read_score
    read_scores-All n [] m h = h
    read_scores-All n ((pos i, s) ∷ es) m h =
        read_scores-All n es (put_score f n i s m) (put_score-All n i s m h)
    read_scores-All n ((negsuc i, s) ∷ es) m h = read_scores-All n es m h

    or_empty-AreScores : (n : ℕ) (m : List (ℕ × S)) → All (IsScore n) m → AreScores n (or_empty f m)
    or_empty-AreScores n [] h = tt
    or_empty-AreScores n (s ∷ m) h = (refl, h)

    decoded-AreScores : (n : ℕ) (arr : Option (List (ℤ × F))) → AreScores n (decoded f n arr)
    unfolding decoded
    decoded-AreScores n none = tt
    decoded-AreScores n (some arr) =
        or_empty-AreScores n (read_scores f n arr []) (read_scores-All n arr [] tt)

    parse_rerank_scores-Yields :
        (decode : Text → Option (List (ℤ × F))) (content : Text) (n : ℕ)
        → AreScores n (parse_rerank_scores f decode content n)
    unfolding parse_rerank_scores
    parse_rerank_scores-Yields decode content n =
        if_elim (AreScores n) (is_empty (array_of content)) _ _ tt
          (decoded-AreScores n (decode (array_of content)))

    -- Where 0 is not less than 0 and 10 less than neither 10 nor 0, the scores that
    -- parseRerankScores returns are at least one, each for an index of a candidate, and the float32 of
    -- a number that is neither less than 0 nor greater than 10.
    pub parse_rerank_scores-bounds :
        (decode : Text → Option (List (ℤ × F))) (content : Text) (n : ℕ) (m : List (ℕ × S))
        (e : parse_rerank_scores f decode content n ≡ scores m)
        → (is_empty m ≡ false) × All (IsScore n) m
    parse_rerank_scores-bounds decode content n m e =
        subst (AreScores n) e (parse_rerank_scores-Yields decode content n)
