-- ===== src/Retrieval/Chunks.antt =====
-- internal/rag/rag.go: the chunks of a markdown document.
pub mod Headings
pub mod Sections
pub mod Whole
use oncall_agent.Prelude.{
  ℕ, suc, Bool, true, false, not, ◌&&◌, List, [], ◌∷◌, ◌++◌, Text, codes, if◌then◌else◌, nat_beq,
  ◌==◌, text_eq, trim_space, has_prefix, drop, is_empty,
}

pub record Chunk : Type 0 where
  pub doc : Text
  pub title : Text
  pub snippet : Text

-- strings.Split(s, "\n"), and strings.Join of lines with "\n".
unfoldable pub add_rune : ℕ → List Text → List Text
add_rune c [] = (c ∷ []) ∷ []
add_rune c (line ∷ lines) = (c ∷ line) ∷ lines

unfoldable pub split_lines : Text → List Text
unfolding add_rune
split_lines [] = [] ∷ []
split_lines (c ∷ s) =
    let rest = split_lines s in if nat_beq c b'\n' then [] ∷ rest else add_rune c rest

unfoldable pub join_lines : List Text → Text
join_lines [] = []
join_lines (line ∷ []) = line
join_lines (line ∷ next ∷ lines) = line ++ b'\n' ∷ join_lines (next ∷ lines)

-- The loop that counts the signs at the front.
unfoldable pub count_signs : Text → ℕ
count_signs [] = 0
count_signs (c ∷ s) = if nat_beq c b'#' then suc (count_signs s) else 0

unfoldable pub heading_level : Text → ℕ × Text
unfolding count_signs
heading_level line =
    let s = trim_space line in
    if not (has_prefix s (codes "#"))
    then (0, [])
    else (count_signs s, trim_space (drop (count_signs s) s))

unfoldable pub parse_heading : Text → Text
unfolding heading_level
parse_heading line = (heading_level line).1

-- The title of the first heading that has one, or else the document's name.
unfoldable pub doc_title : Text → List Text → Text
unfolding parse_heading
doc_title doc [] = doc
doc_title doc (line ∷ lines) =
    if parse_heading line == [] then doc_title doc lines else parse_heading line

-- `lvl == 2 && t != ""`
unfoldable pub is_section : Text → Bool
unfolding heading_level
is_section line = nat_beq (heading_level line).0 2 && not ((heading_level line).1 == [])

-- The variables of the loop.
pub record Cut : Type 0 where
  pub chunks : List Chunk
  pub cur_title : Text
  pub cur : List Text

unfoldable pub put_chunk : Text → Text → Text → List Chunk → List Chunk
put_chunk doc title snippet chunks =
    if snippet == []
    then chunks
    else chunks ++ record { doc = doc; title = title; snippet = snippet } ∷ []

unfoldable pub flush : Text → Text → Cut → Cut
unfolding put_chunk join_lines
flush doc title s = if is_empty s.cur then s else record s {
  chunks =
      put_chunk doc (if s.cur_title == [] then title else s.cur_title)
        (trim_space (join_lines s.cur)) s.chunks;
  cur = [];
}

unfoldable pub cut_line : Text → Text → Text → Cut → Cut
unfolding flush is_section parse_heading
cut_line doc title line s =
    if is_section line
    then record (flush doc title s) {
      cur_title = parse_heading line;
      cur = (flush doc title s).cur ++ line ∷ [];
    }
    else record s { cur = s.cur ++ line ∷ [] }

unfoldable pub cut_lines : Text → Text → List Text → Cut → Cut
unfolding cut_line flush
cut_lines doc title [] s = flush doc title s
cut_lines doc title (line ∷ lines) s = cut_lines doc title lines (cut_line doc title line s)

-- The chunk of the whole text, if the loop has made none and the text is not blank.
unfoldable pub or_whole : Text → Text → Text → List Chunk → List Chunk
unfolding put_chunk
or_whole doc title md [] = put_chunk doc title (trim_space md) []
or_whole doc title md (c ∷ cs) = c ∷ cs

unfoldable pub chunk_markdown : Text → Text → List Chunk
unfolding split_lines doc_title cut_lines or_whole
chunk_markdown doc md =
    let lines = split_lines md in
    let title = doc_title doc lines in
    let start : Cut = record { chunks = []; cur_title = []; cur = [] } in
    or_whole doc title md (cut_lines doc title lines start).chunks
