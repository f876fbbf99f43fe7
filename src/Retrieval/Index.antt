-- ===== src/Retrieval/Index.antt =====
-- internal/rag/bm25.go: the keyword index, its terms and the fusion of two rankings. The mutex makes
-- every operation a step of its own.
pub mod Mirror
use oncall_agent.Prelude.{
  ℕ, suc, ◌+◌, ◌-◌, Bool, true, false, not, ◌&&◌, ◌||◌, Option, none, some, List, [], ◌∷◌, ◌++◌,
  Text, codes, map, if◌then◌else◌, leb, ltb, ◌==◌, text_eq, length, has, lookup, insert, delete,
  keys,
}
use oncall_agent.Retrieval.Anchor.{Unicode, bigrams}

-- The state of the tokenizer's loop: the terms, the word and the Han run that are being read.
pub record Scan : Type 0 where
  pub terms : List Text
  pub latin : Text
  pub han : Text

unfoldable pub flush_latin : Scan → Scan
flush_latin s =
    if s.latin == [] then s else record s { terms = s.terms ++ s.latin ∷ []; latin = [] }

unfoldable pub flush_han : Scan → Scan
unfolding bigrams
flush_han s = record s { terms = s.terms ++ bigrams s.han; han = [] }

unfoldable pub scan_rune : Unicode → ℕ → Scan → Scan
unfolding flush_latin flush_han
scan_rune u c s =
    let closed = flush_han s in
    let ended = flush_latin s in
    if ltb c 128 && (u.is_letter c || u.is_digit c)
    then record closed { latin = closed.latin ++ c ∷ [] }
    else if u.is_han c
    then record ended { han = ended.han ++ c ∷ [] }
    else flush_han ended

unfoldable pub scan_runes : Unicode → Text → Scan → Scan
unfolding scan_rune
scan_runes u [] s = flush_han (flush_latin s)
scan_runes u (c ∷ text) s = scan_runes u text (scan_rune u c s)

unfoldable pub tokenize : Unicode → Text → List Text
unfolding scan_runes
tokenize u s = (scan_runes u (map u.to_lower s) (record { terms = []; latin = []; han = [] })).terms

pub record Doc : Type 0 where
  pub doc : Text
  pub title : Text
  pub snippet : Text
  pub source : Text
  pub tf : List (Text × ℕ)
  pub length : ℕ

pub record Index : Type 0 where
  pub docs : List (Text × Doc)
  pub df : List (Text × ℕ)
  pub tot_len : ℕ

abbrev pub count_of : Option ℕ → ℕ
count_of none = 0
count_of (some n) = n

-- `m[t]++`
abbrev pub increment : Text → List (Text × ℕ) → List (Text × ℕ)
increment t m = insert t (suc (count_of (lookup t m))) m

unfoldable pub term_counts : List Text → List (Text × ℕ) → List (Text × ℕ)
term_counts [] tf = tf
term_counts (t ∷ ts) tf = term_counts ts (increment t tf)

-- The loop that takes a document's terms back.
unfoldable pub take_back : List Text → List (Text × ℕ) → List (Text × ℕ)
take_back [] df = df
take_back (t ∷ ts) df =
    let n = count_of (lookup t df) in
    take_back ts (if leb n 1 then delete t df else insert t (n - 1) df)

unfoldable pub add_terms : List Text → List (Text × ℕ) → List (Text × ℕ)
add_terms [] df = df
add_terms (t ∷ ts) df = add_terms ts (increment t df)

-- Without the document `old` in the frequencies and the total; `docs` is as it was.
unfoldable pub retract : Option Doc → Index → Index
unfolding take_back
retract none b = b
retract (some old) b = record b {
  df = take_back (keys old.tf) b.df;
  tot_len = b.tot_len - old.length;
}

unfoldable pub new_doc : Unicode → Text → Text → Text → Text → Doc
unfolding tokenize term_counts
new_doc u doc title snippet source =
    let toks = tokenize u (title ++ codes "\n" ++ snippet) in
    record {
      doc = doc;
      title = title;
      snippet = snippet;
      source = source;
      tf = term_counts toks [];
      length = length toks;
    }

unfoldable pub put_doc : Text → Doc → Index → Index
unfolding retract add_terms
put_doc id d b =
    let b' = retract (lookup id b.docs) b in
    record {
      docs = insert id d b'.docs;
      df = add_terms (keys d.tf) b'.df;
      tot_len = b'.tot_len + d.length;
    }

unfoldable pub upsert : Unicode → Text → Text → Text → Text → Text → Index → Index
unfolding put_doc new_doc
upsert u id doc title snippet source b = put_doc id (new_doc u doc title snippet source) b

-- `removeLocked`
unfoldable pub remove : Text → Index → Index
unfolding retract
remove id b = let b' = retract (lookup id b.docs) b in record b' { docs = delete id b'.docs }

-- The loop of `deleteDoc` and of `deleteSource`.
unfoldable pub remove_all : (Doc → Bool) → List (Text × Doc) → Index → Index
unfolding remove
remove_all p [] b = b
remove_all p ((id, d) ∷ ds) b = remove_all p ds (if p d then remove id b else b)

unfoldable pub delete_doc : Text → Index → Index
unfolding remove_all
delete_doc doc b = remove_all (λ d. d.doc == doc) b.docs b

unfoldable pub delete_source : Text → Index → Index
unfolding remove_all
delete_source source b = remove_all (λ d. d.source == source) b.docs b
