-- ===== src/Retrieval/Tests.antt =====
-- The theorems on the index at a few edits, on a small document and on three candidates.
use oncall_agent.Prelude.{
  All, false, is_empty, ℕ, true, false, Option, ltb, arith, ◌&&◌, some, Text, map, ◌↔◌, trim_space,
  trim_left, trim_right, is_space, has_prefix, List, [], ◌∷◌, codes, ◌≡◌, refl, text_beq, text_eq,
  nat_eq, ◌==◌, leb, lookup,
}
use oncall_agent.Retrieval.Anchor.{Unicode}
use oncall_agent.Retrieval.Index.{
  Doc, tokenize, upsert, new_doc, put_doc, remove_all, delete_doc, delete_source,
}
use oncall_agent.Retrieval.Chunks.{
  chunk_markdown, split_lines, add_rune, join_lines, count_signs, heading_level, parse_heading,
  doc_title, is_section, put_chunk, flush, cut_line, cut_lines, or_whole,
}
use oncall_agent.Retrieval.Chunks.Headings.{first_heading}
use oncall_agent.Retrieval.Chunks.Sections.{sections, section_chunks}
use oncall_agent.Retrieval.Chunks.Whole.{concat, chunk_markdown-sections, chunk_markdown-eq-nil_iff}
use oncall_agent.Retrieval.Index.Mirror.{
  IsMirror, Edit, puts, edit, no_docs, edit-IsMirror, delete-lookup,
}
use oncall_agent.Retrieval.Rerank.{
  scores, ℤ, pos, negsuc, Hit, from_bracket, to_bracket, array_of, scored, score_all, is_hit,
  insert_hit, sort_hits, top, Floats, clamp_low, clamp, put_score, read_score, read_scores, decoded,
  parse_rerank_scores, parse_reply, ranked, rerank, RerankError,
}
use oncall_agent.Retrieval.Rerank.Bounded.{IsScore, parse_rerank_scores-bounds}
use oncall_agent.Retrieval.Rerank.Descending.{Ranks, rerank-Ranks}

program : Unit {0}
unfolding text_beq edit upsert new_doc put_doc delete_doc delete_source remove_all tokenize
    trim_space trim_left trim_right is_space has_prefix chunk_markdown split_lines add_rune
    join_lines count_signs heading_level parse_heading doc_title is_section put_chunk flush cut_line
    cut_lines or_whole
program = tt

abbrev ascii : Unicode
ascii = record {
  to_lower = λ c. c;
  is_letter = λ c. leb 97 c && leb c 122;
  is_digit = λ c. leb 48 c && leb c 57;
  is_han = λ c. leb 0x4e00 c && leb c 0x9fff;
}

terms : tokenize ascii (codes "disk 磁盘满") ≡ codes "disk" ∷ codes "磁盘" ∷ codes "盘满" ∷ []
unfolding program
terms = refl

abbrev edits : List Edit
edits =
    puts (codes "1") (codes "ops") (codes "disk") (codes "full disk") (codes "upload")
    ∷ puts (codes "2") (codes "net") (codes "dns") (codes "slow") (codes "demo")
    ∷ puts (codes "1") (codes "ops") (codes "disk") (codes "磁盘满") (codes "upload")
    ∷ []

edit-IsMirror_example : IsMirror (edit ascii no_docs edits)
edit-IsMirror_example = edit-IsMirror ascii edits

abbrev slow : Doc
slow = new_doc ascii (codes "net") (codes "dns") (codes "slow") (codes "demo")

delete-lookup_example :
    (lookup (codes "2") (delete_doc (codes "ops") (edit ascii no_docs edits)).docs ≡ some slow)
    × (lookup (codes "2") (delete_source (codes "ops") (edit ascii no_docs edits)).docs ≡ some slow)
unfolding program
delete-lookup_example =
    delete-lookup (edit ascii no_docs edits) (codes "2") (codes "ops") slow
      (edit-IsMirror ascii edits) refl

-- A text before the headings has the title of the first heading, which is of the second level here.
late_title :
    map (λ c. c.title) (chunk_markdown (codes "ops") (codes "intro\n## A\n# B"))
    ≡ codes "A" ∷ codes "A" ∷ []
unfolding program
late_title = refl

-- A text with a title, two sections and a heading of another level.
abbrev page : Text
page = codes "# Ops\nintro\n## Disk\nfull\n### more\n## \n\n## Net\nslow"

chunk_markdown-sections_example :
    (chunk_markdown (codes "ops") page
      ≡ section_chunks
          (codes "ops")
          (first_heading (codes "ops") (split_lines page))
          (sections (split_lines page)))
    × (concat (sections (split_lines page)) ≡ split_lines page)
    × (join_lines (split_lines page) ≡ page)
chunk_markdown-sections_example = chunk_markdown-sections (codes "ops") page

titles :
    map (λ c. c.title) (chunk_markdown (codes "ops") page)
    ≡ codes "Ops" ∷ codes "Disk" ∷ codes "Net" ∷ []
unfolding program
titles = refl

chunk_markdown-eq-nil_iff_example :
    (chunk_markdown (codes "ops") page ≡ []) ↔ (trim_space page ≡ [])
chunk_markdown-eq-nil_iff_example = chunk_markdown-eq-nil_iff (codes "ops") page

reranking : Unit {0}
unfolding trim_space trim_left trim_right is_space from_bracket to_bracket array_of scored score_all
    is_hit insert_hit sort_hits top clamp_low clamp put_score read_score read_scores decoded
    parse_rerank_scores parse_reply ranked rerank
reranking = tt

-- Whole scores, of which 99 stands for NaN.
abbrev whole_scores : Floats ℕ ℕ
whole_scores = record {
  lt = ltb;
  is_nan = λ s. s == 99;
  zero_score = 0;
  ten = 10;
  narrow = λ s. s;
  less = ltb;
}

ltb-asym : (a b : ℕ) (e : ltb a b ≡ true) → ltb b a ≡ false
ltb-asym a b e = ground arith

abbrev hit : Text → Hit ℕ
hit doc = record { doc = doc; snippet = []; score = 1 }

abbrev cands : List (Hit ℕ)
cands = hit (codes "a") ∷ hit (codes "b") ∷ hit (codes "c") ∷ []

-- The reply scores b twice, c above ten, and ids that no candidate has.
abbrev decode_scores : Text → Option (List (ℤ × ℕ))
decode_scores s =
    some ((pos 1, 4) ∷ (negsuc 0, 9) ∷ (pos 2, 20) ∷ (pos 1, 10) ∷ (pos 7, 3) ∷ (pos 0, 99) ∷ [])

abbrev reply_with : Text → Text → List (Hit ℕ) → Option Text
reply_with content query hits = some content

abbrev reranked : Text → ℕ → List (Hit ℕ) × Option RerankError
reranked content k = rerank whole_scores decode_scores (reply_with content) (codes "disk") cands k

rerank-Ranks_example :
    Ranks ltb
      (parse_reply whole_scores decode_scores 3 (some (codes "x[1]y")))
      cands
      2
      (reranked (codes "x[1]y") 2)
rerank-Ranks_example =
    rerank-Ranks whole_scores ltb-asym decode_scores (reply_with (codes "x[1]y")) (codes "disk")
      cands 2

reranked-top : map (λ h. h.score) (reranked (codes "x[1]y") 2).0 ≡ 10 ∷ 4 ∷ []
unfolding reranking
reranked-top = refl

no_array : reranked (codes "]x[") 2 ≡ (cands, some RerankError.no_array)
unfolding reranking
no_array = refl

abbrev read : List (ℕ × ℕ)
read = (2, 10) ∷ (1, 4) ∷ []

reads : parse_rerank_scores whole_scores decode_scores (codes "x[1]y") 3 ≡ scores read
unfolding reranking
reads = refl

parse_rerank_scores-bounds_example : (is_empty read ≡ false) × All (IsScore whole_scores 3) read
unfolding reranking
parse_rerank_scores-bounds_example =
    parse_rerank_scores-bounds whole_scores refl refl refl decode_scores (codes "x[1]y") 3 read
      reads
