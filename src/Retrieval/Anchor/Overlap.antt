-- ===== src/Retrieval/Anchor/Overlap.antt =====
-- What a text that passes has in common with the query.
use oncall_agent.Prelude.{
  In, refl, sym, ap, ◌++◌, ℕ, ◌≤◌, true, false, not, ◌&&◌, List, [], ◌∷◌, Text, map, leb, ◌≡◌,
  arith, ◌==◌, text_eq, text_beq_iff, length, has, contains, fields_from, trim_space, All, Distinct,
  ◌⊎◌, inl, inr, Bool-cases,
}
use oncall_agent.Retrieval.Anchor.{
  Unicode, is_stop, is_break, is_ascii, bigrams, add_pairs, is_anchor_word, scan_words, anchored,
  lexical_anchor,
}

-- Two neighbours of a word that is not ASCII and no stop word, as a pair that occurs in the text and is
-- no stop word.
pub record Occurs (text : Text) (words : List Text) (pair : Text) : Type 0 where
  pub word : Text
  pub listed : has word words ≡ true
  pub spoken : is_stop word ≡ false
  pub wide : is_ascii word ≡ false
  pub before : Text
  pub first : ℕ
  pub second : ℕ
  pub after : Text
  pub split : word ≡ before ++ first ∷ second ∷ after
  pub pair_eq : pair ≡ first ∷ second ∷ []
  pub inside : contains text pair ≡ true
  pub meaningful : is_stop pair ≡ false

-- Two different pairs at least.
pub record HasPairs (text : Text) (words : List Text) : Type 0 where
  pub pairs : List Text
  pub two : 2 ≤ length pairs
  pub distinct : Distinct pairs
  pub occur : All (Occurs text words) pairs

-- A word of three ASCII letters or more.
pub record HasWord (text : Text) (words : List Text) : Type 0 where
  pub word : Text
  pub listed : has word words ≡ true
  pub meaningful : is_stop word ≡ false
  pub ascii : is_ascii word ≡ true
  pub long : 3 ≤ length word
  pub inside : contains text word ≡ true

-- A pair of neighbours of a word.
record IsPair (word pair : Text) : Type 0 where
  before : Text
  first : ℕ
  second : ℕ
  after : Text
  split : word ≡ before ++ first ∷ second ∷ after
  pair_eq : pair ≡ first ∷ second ∷ []

bigrams-IsPair : (word pair : Text) → In pair (bigrams word) → IsPair word pair
unfolding bigrams
bigrams-IsPair [] pair h = absurd h
bigrams-IsPair (a ∷ []) pair h = absurd h
bigrams-IsPair (a ∷ b ∷ s) pair (inl h) = record {
  before = [];
  first = a;
  second = b;
  after = s;
  split = refl;
  pair_eq = sym h;
}
bigrams-IsPair (a ∷ b ∷ s) pair (inr h) =
    let p = bigrams-IsPair (b ∷ s) pair h in
    record {
      before = a ∷ p.before;
      first = p.first;
      second = p.second;
      after = p.after;
      split = ap (λ z. a ∷ z) p.split;
      pair_eq = p.pair_eq;
    }

module _ (text : Text) (all : List Text) where
  add_pairs-Distinct :
      (word : Text)
      → has word all ≡ true
      → is_stop word ≡ false
      → is_ascii word ≡ false
      → (ps pairs : List Text) → ((p : Text) → In p ps → IsPair word p)
      → Distinct pairs
      → All (Occurs text all) pairs
      → Distinct (add_pairs text ps pairs) × All (Occurs text all) (add_pairs text ps pairs)
  unfolding add_pairs
  add_pairs-Distinct word m s w [] pairs f d o = (d, o)
  add_pairs-Distinct word m s w (p ∷ ps) pairs f d o =
      elim (Bool-cases (not (is_stop p) && contains text p && not (has p pairs))) [
        | inr rest ↦ rw rest (add_pairs-Distinct word m s w ps pairs (λ q i. f q (inr i)) d o)
        | inl fits ↦
            let pair = f p (inl refl) in
            let occurs : Occurs text all p = record {
              word = word;
              listed = m;
              spoken = s;
              wide = w;
              before = pair.before;
              first = pair.first;
              second = pair.second;
              after = pair.after;
              split = pair.split;
              pair_eq = pair.pair_eq;
              inside = ground arith;
              meaningful = ground arith;
            } in
            let new : has p pairs ≡ false = ground arith in
            rw fits (
              add_pairs-Distinct word m s w ps (p ∷ pairs) (λ q i. f q (inr i)) (new, d)
                (occurs, o))
      ]

  anchor_word :
      (w : Text)
      → has w all ≡ true
      → is_stop w ≡ false
      → is_anchor_word text w ≡ true
      → HasWord text all
  unfolding is_anchor_word
  anchor_word w m s h = record {
    word = w;
    listed = m;
    meaningful = s;
    ascii = ground arith;
    long = ground arith;
    inside = ground arith;
  }

  scan_words-overlap :
      (words pairs : List Text)
      → ((w : Text) → has w words ≡ true → has w all ≡ true)
      → Distinct pairs
      → All (Occurs text all) pairs
      → scan_words text words pairs ≡ true
      → HasWord text all ⊎ HasPairs text all
  unfolding scan_words
  scan_words-overlap [] pairs sub d o h =
      inr (record { pairs = pairs; two = ground arith; distinct = d; occur = o })
  scan_words-overlap (w ∷ words) pairs sub d o h =
      let here : has w all ≡ true = sub w (ground (arith, text_beq_iff w w)) in
      let later : (v : Text) → has v words ≡ true → has v all ≡ true =
        λ v i. sub v (ground (arith, i)) in
      elim (Bool-cases (is_stop w)) [
        | inl stop ↦ scan_words-overlap words pairs later d o (ground arith)
        | inr word ↦ elim (Bool-cases (is_anchor_word text w)) [
          | inl found ↦ inl (anchor_word w here word found)
          | inr other ↦ elim (Bool-cases (is_ascii w)) [
            | inl ascii ↦ scan_words-overlap words pairs later d o (ground arith)
            | inr wide ↦
                let (d', o') =
                  add_pairs-Distinct w here word wide (bigrams w) pairs (bigrams-IsPair w) d o in
                scan_words-overlap words (add_pairs text (bigrams w) pairs) later d' o'
                  (ground arith)
          ]
        ]
      ]

map_empty : (f : ℕ → ℕ) (s : Text) → (map f s == []) ≡ false → (s == []) ≡ false
map_empty f [] h = ground arith
map_empty f (c ∷ s) h = ground (arith, text_beq_iff (c ∷ s) [])

-- The query and the text share the whole query, of three code points or more; or a word of the query
-- that is ASCII, no stop word and of three letters or more; or two different pairs of
-- neighbouring code points of words of the query that are not ASCII, where neither the word nor the pair
-- is a stop word.
abbrev pub Overlaps : Unicode → Text → Text → Type 0
Overlaps u query text =
    (3 ≤ length query) × (contains text query ≡ true)
    ⊎ HasWord text (fields_from (is_break u) [] query)
    ⊎ HasPairs text (fields_from (is_break u) [] query)

-- A text that passes shares with the query, both in lower case and the query without the space around
-- it: the whole query, of three code points or more; or a word of the query that is ASCII, no stop
-- word and of three letters or more; or two different pairs of neighbouring code points of words of the query
-- that are not ASCII, where neither the word nor the pair is a stop word. The query is not empty.
pub lexical_anchor-Overlaps :
    (u : Unicode) (query text : Text)
    → lexical_anchor u query text ≡ true
    → ((trim_space query == []) ≡ false)
      × Overlaps u (map u.to_lower (trim_space query)) (map u.to_lower text)
unfolding lexical_anchor anchored
lexical_anchor-Overlaps u query text h =
    let q = map u.to_lower (trim_space query) in
    let t = map u.to_lower text in
    let nonempty : (q == []) ≡ false = ground arith in
    (
      map_empty u.to_lower (trim_space query) nonempty,
      elim (Bool-cases (leb 3 (length q) && contains t q)) [
        | inl whole ↦ inl (ground arith, ground arith)
        | inr part ↦ inr (
            scan_words-overlap t (fields_from (is_break u) [] q) (fields_from (is_break u) [] q) []
              (λ w i. i) tt tt (ground (arith, nonempty, part)))
      ],
    )
