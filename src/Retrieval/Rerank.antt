-- ===== src/Retrieval/Rerank.antt =====
-- `Rerank` and `parseRerankScores` of internal/rag/rerank.go. The type `F` stands for float64 and `S` for
-- float32; the reply of the model and encoding/json are arguments. A place in a text is kept as the rest
-- of the text from there.
pub mod Descending
pub mod Bounded
use oncall_agent.Prelude.{
  ℕ, zero, suc, ◌+◌, Bool, true, false, not, ◌&&◌, ◌||◌, Option, none, some, List, [], ◌∷◌, ◌++◌,
  Text, codes, if◌then◌else◌, ltb, leb, ◌==◌, nat_eq, text_eq, lookup, length, take, trim_space,
  is_empty, has,
}

pub data ℤ : Type 0 where
  pos negsuc : ℕ → ℤ

pub data RerankError : Type 0 where
  empty_query no_reply no_array bad_array no_scores no_valid : RerankError

pub data Scores {ℓ} (A : Type ℓ) : Type ℓ where
  failed : RerankError → Scores A
  scores : A → Scores A

-- `content[start:]` for the first `[`.
unfoldable pub from_bracket : Text → Text
from_bracket [] = []
from_bracket (c ∷ cs) = if c == 91 then c ∷ cs else from_bracket cs

-- The text up to and with the last `]`.
unfoldable pub to_bracket : Text → Text
to_bracket [] = []
to_bracket (c ∷ cs) =
    let rest = to_bracket cs in
    let last = if c == 93 then c ∷ [] else [] in if is_empty rest then last else c ∷ rest

unfoldable pub array_of : Text → Text
unfolding from_bracket to_bracket
array_of content = to_bracket (from_bracket content)

abbrev pub is_scored {ℓ} : {A : Type ℓ} → Option A → Bool
is_scored none = false
is_scored (some a) = true

-- A Result, without the fields that are only copied.
pub record Hit (S : Type 0) : Type 0 where
  pub doc : Text
  pub snippet : Text
  pub score : S

module _ {S : Type 0} where
  unfoldable pub scored : Option S → Hit S → Hit S
  scored none h = h
  scored (some s) h = record h { score = s }

  -- The candidates from the index `i` on, with their scores.
  unfoldable pub score_all : List (ℕ × S) → ℕ → List (Hit S) → List (Hit S)
  unfolding scored
  score_all m i [] = []
  score_all m i (h ∷ hs) = scored (lookup i m) h ∷ score_all m (i + 1) hs

  -- Whether a candidate has a score.
  unfoldable pub is_hit : List (ℕ × S) → ℕ → List (Hit S) → Bool
  is_hit m i [] = false
  is_hit m i (h ∷ hs) = is_scored (lookup i m) || is_hit m (i + 1) hs

  -- sort.SliceStable by the descending score, as an insertion sort, which is stable too: an item goes
  -- before those that do not exceed it.
  unfoldable pub insert_hit : (S → S → Bool) → Hit S → List (Hit S) → List (Hit S)
  insert_hit lt h [] = h ∷ []
  insert_hit lt h (g ∷ gs) = if lt h.score g.score then g ∷ insert_hit lt h gs else h ∷ g ∷ gs

  unfoldable pub sort_hits : (S → S → Bool) → List (Hit S) → List (Hit S)
  unfolding insert_hit
  sort_hits lt [] = []
  sort_hits lt (h ∷ hs) = insert_hit lt h (sort_hits lt hs)

-- `topK > 0 && len(sorted) > topK`
unfoldable pub top {ℓ} : {A : Type ℓ} → ℕ → List A → List A
top k xs = if ltb 0 k && ltb k (length xs) then take k xs else xs

-- Floats: the order, the test for NaN, 0 and 10, and the conversion to float32.
pub record Floats (F S : Type 0) : Type 0 where
  pub lt : F → F → Bool
  pub is_nan : F → Bool
  pub zero_score : F
  pub ten : F
  pub narrow : F → S
  pub less : S → S → Bool

module _ {F S : Type 0} (f : Floats F S) where
  unfoldable pub clamp_low : F → F
  clamp_low s = if f.lt s f.zero_score then f.zero_score else s

  unfoldable pub clamp : F → F
  unfolding clamp_low
  clamp s = if f.lt f.ten (clamp_low s) then f.ten else clamp_low s

  unfoldable pub put_score : ℕ → ℕ → F → List (ℕ × S) → List (ℕ × S)
  unfolding clamp
  put_score n i s m =
      if not (ltb i n) || f.is_nan s || is_scored (lookup i m)
      then m
      else (i, f.narrow (clamp s)) ∷ m

  unfoldable pub read_score : ℕ → ℤ × F → List (ℕ × S) → List (ℕ × S)
  unfolding put_score
  read_score n (pos i, s) m = put_score n i s m
  read_score n (negsuc i, s) m = m

  unfoldable pub read_scores : ℕ → List (ℤ × F) → List (ℕ × S) → List (ℕ × S)
  unfolding read_score
  read_scores n [] m = m
  read_scores n (e ∷ es) m = read_scores n es (read_score n e m)

  abbrev pub or_empty : List (ℕ × S) → Scores (List (ℕ × S))
  or_empty [] = failed RerankError.no_scores
  or_empty (s ∷ m) = scores (s ∷ m)

  unfoldable pub decoded : ℕ → Option (List (ℤ × F)) → Scores (List (ℕ × S))
  unfolding read_scores
  decoded n none = failed RerankError.bad_array
  decoded n (some arr) = or_empty (read_scores n arr [])

  -- `decode` is the decoder of encoding/json.
  unfoldable pub parse_rerank_scores :
      (Text → Option (List (ℤ × F))) → Text → ℕ → Scores (List (ℕ × S))
  unfolding array_of decoded
  parse_rerank_scores decode content n =
      let slice = array_of content in
      let read = decoded n (decode slice) in
      if is_empty slice then failed RerankError.no_array else read

  unfoldable pub parse_reply :
      (Text → Option (List (ℤ × F))) → ℕ → Option Text → Scores (List (ℕ × S))
  unfolding parse_rerank_scores
  parse_reply decode n none = failed RerankError.no_reply
  parse_reply decode n (some content) = parse_rerank_scores decode content n

  unfoldable pub ranked :
      List (Hit S) → ℕ → Scores (List (ℕ × S)) → List (Hit S) × Option RerankError
  unfolding score_all is_hit sort_hits top
  ranked cands k (failed e) = (cands, some e)
  ranked cands k (scores m) =
      let sorted = top k (sort_hits f.less (score_all m 0 cands)) in
      if is_hit m 0 cands then (sorted, none) else (cands, some RerankError.no_valid)

  -- `reply` is the answer of the model to the query and the candidates, where it gives one.
  unfoldable pub rerank :
      (Text → Option (List (ℤ × F)))
      → (Text → List (Hit S) → Option Text)
      → Text
      → List (Hit S)
      → ℕ
      → List (Hit S) × Option RerankError
  unfolding parse_reply ranked
  rerank decode reply query cands k =
      let result = ranked cands k (parse_reply decode (length cands) (reply query cands)) in
      if is_empty cands
      then ([], none)
      else if is_empty (trim_space query)
      then (cands, some RerankError.empty_query)
      else result
