-- ===== src/Retrieval/Anchor.antt =====
-- internal/rag/qualification.go: `LexicalAnchor`, the overlap that a source text must have with a
-- query. Package unicode is the argument `Unicode`.
pub mod Overlap
use oncall_agent.Prelude.{
  ℕ, Bool, true, false, not, ◌&&◌, ◌||◌, List, [], ◌∷◌, ◌++◌, Text, codes, map, if◌then◌else◌, leb,
  ltb, nat_beq, ◌==◌, text_eq, length, any, has, contains, fields_from, trim_space,
}

pub record Unicode : Type 0 where
  pub to_lower : ℕ → ℕ
  pub is_letter : ℕ → Bool
  pub is_digit : ℕ → Bool
  pub is_han : ℕ → Bool

pub stop_words : List Text
stop_words =
    codes "what"
    ∷ codes "why"
    ∷ codes "how"
    ∷ codes "the"
    ∷ codes "this"
    ∷ codes "that"
    ∷ codes "please"
    ∷ codes "with"
    ∷ codes "does"
    ∷ codes "query"
    ∷ codes "question"
    ∷ codes "error"
    ∷ codes "问题"
    ∷ codes "故障"
    ∷ codes "怎么"
    ∷ codes "如何"
    ∷ codes "什么"
    ∷ codes "请问"
    ∷ codes "排查"
    ∷ codes "处理"
    ∷ codes "是否"
    ∷ codes "原因"
    ∷ []

unfoldable pub is_stop : Text → Bool
unfolding stop_words
is_stop word = has word stop_words

-- The separators between words.
unfoldable pub is_break : Unicode → ℕ → Bool
is_break u c = not (u.is_letter c) && not (u.is_digit c) && not (nat_beq c b'_')

unfoldable pub is_ascii : Text → Bool
is_ascii word = not (any (ltb 127) word)

-- The two code points at each place of a text.
unfoldable pub bigrams : Text → List Text
bigrams [] = []
bigrams (a ∷ []) = []
bigrams (a ∷ b ∷ s) = (a ∷ b ∷ []) ∷ bigrams (b ∷ s)

-- `pairs` is a set: a pair that is in it is not added again.
unfoldable pub add_pairs : Text → List Text → List Text → List Text
unfolding is_stop
add_pairs text [] pairs = pairs
add_pairs text (p ∷ ps) pairs =
    add_pairs text ps
      (if not (is_stop p) && contains text p && not (has p pairs) then p ∷ pairs else pairs)

unfoldable pub is_anchor_word : Text → Text → Bool
unfolding is_ascii
is_anchor_word text word = is_ascii word && leb 3 (length word) && contains text word

-- The loop over the words of the query.
unfoldable pub scan_words : Text → List Text → List Text → Bool
unfolding is_anchor_word is_stop is_ascii
scan_words text [] pairs = leb 2 (length pairs)
scan_words text (word ∷ words) pairs =
    let skipped = scan_words text words pairs in
    let paired = scan_words text words (add_pairs text (bigrams word) pairs) in
    if is_stop word
    then skipped
    else if is_anchor_word text word
    then true
    else if is_ascii word
    then skipped
    else paired

unfoldable pub anchored : Unicode → Text → Text → Bool
unfolding scan_words fields_from
anchored u query text =
    if query == []
    then false
    else if leb 3 (length query) && contains text query
    then true
    else scan_words text (fields_from (is_break u) [] query) []

unfoldable pub lexical_anchor : Unicode → Text → Text → Bool
unfolding anchored trim_space
lexical_anchor u query text = anchored u (map u.to_lower (trim_space query)) (map u.to_lower text)
