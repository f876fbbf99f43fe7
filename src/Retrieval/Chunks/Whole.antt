-- ===== src/Retrieval/Chunks/Whole.antt =====
-- No line of a document is lost: the lines of the sections are those of the text, and a text that is
-- not blank has a chunk.
use mathlib.Core.List.{append_assoc}
use oncall_agent.Prelude.{
  ℕ, Bool, true, ◌&&◌, List, [], ◌∷◌, ◌++◌, Text, ◌==◌, text_beq, text_eq, text_beq_iff, ◌↔◌,
  trim_space, trim_left, trim_right, is_space, ◌≡◌, refl, arith, Bool-cases, inl, inr, ap, ◌∙◌, sym,
  List-cases,
}
use oncall_agent.Retrieval.Chunks.{
  Chunk, add_rune, split_lines, join_lines, doc_title, put_chunk, or_whole, chunk_markdown,
}
use oncall_agent.Retrieval.Chunks.Headings.{first_heading, doc_title-first}
use oncall_agent.Retrieval.Chunks.Sections.{
  glue, sections, starts, section_chunks, cut_all-sections,
}

pub blank : Text → Bool
blank [] = true
blank (c ∷ s) = is_space c && blank s

pub all_blank : List Text → Bool
all_blank [] = true
all_blank (line ∷ lines) = blank line && all_blank lines

blank-append : (s t : Text) → blank (s ++ t) ≡ (blank s && blank t)
unfolding blank
blank-append [] t = refl
blank-append (c ∷ s) t = ground (arith, blank-append s t)

blank-trim_left : (s : Text) → blank (trim_left is_space s) ≡ blank s
unfolding trim_left blank
blank-trim_left [] = refl
blank-trim_left (c ∷ s) = ground (arith, blank-trim_left s)

trim_right-nil : (s : Text) → (trim_right is_space s == []) ≡ blank s
unfolding trim_right blank text_beq
trim_right-nil [] = refl
trim_right-nil (c ∷ s) = ground (arith, trim_right-nil s)

trim_space-blank : (s : Text) → (trim_space s == []) ≡ blank s
unfolding trim_space
trim_space-blank s = trim_right-nil (trim_left is_space s) ∙ blank-trim_left s

blank-newline : (s : Text) → blank (b'\n' ∷ s) ≡ blank s
unfolding blank is_space
blank-newline s = refl

join_lines-blank : (lines : List Text) → blank (join_lines lines) ≡ all_blank lines
unfolding join_lines all_blank blank
join_lines-blank [] = refl
join_lines-blank (line ∷ []) = ground arith
join_lines-blank (line ∷ next ∷ lines) =
    let rest = join_lines (next ∷ lines) in
    blank-append line (b'\n' ∷ rest)
    ∙ ap (λ b. blank line && b) (blank-newline rest ∙ join_lines-blank (next ∷ lines))

join_lines-add_rune :
    (c : ℕ) (lines : List Text) → join_lines (add_rune c lines) ≡ c ∷ join_lines lines
unfolding join_lines add_rune
join_lines-add_rune c [] = refl
join_lines-add_rune c (line ∷ []) = refl
join_lines-add_rune c (line ∷ next ∷ lines) = refl

join_lines-newline :
    (lines : List Text) → (lines ≡ [] → ⊥) → join_lines ([] ∷ lines) ≡ b'\n' ∷ join_lines lines
unfolding join_lines
join_lines-newline [] h = absurd (h refl)
join_lines-newline (line ∷ lines) h = refl

split_lines-full : (s : Text) → split_lines s ≡ [] → ⊥
unfolding split_lines add_rune
split_lines-full [] h = absurd (ground arith)
split_lines-full (c ∷ s) h = absurd (ground (arith, List-cases (split_lines s)))

join_lines-split_lines : (s : Text) → join_lines (split_lines s) ≡ s
unfolding split_lines
join_lines-split_lines [] = unfold join_lines in refl
join_lines-split_lines (c ∷ s) = ground (
  arith,
  join_lines-split_lines s,
  join_lines-newline (split_lines s),
  split_lines-full s,
  join_lines-add_rune c (split_lines s),
)

pub concat : List (List Text) → List Text
concat [] = []
concat (s ∷ ss) = s ++ concat ss

glue-concat : (cur : List Text) (ss : List (List Text)) → concat (glue cur ss) ≡ cur ++ concat ss
unfolding glue concat
glue-concat [] ss = refl
glue-concat (l ∷ cur) [] = refl
glue-concat (l ∷ cur) (s ∷ ss) = elim (Bool-cases (starts s)) [
  | inl e ↦ rw e refl
  | inr e ↦ rw (e, append_assoc) refl
]

sections-concat : (lines : List Text) → concat (sections lines) ≡ lines
unfolding sections concat
sections-concat [] = refl
sections-concat (line ∷ lines) =
    glue-concat (line ∷ []) (sections lines) ∙ ap (λ z. line ∷ z) (sections-concat lines)

all_blank-append : (xs ys : List Text) → all_blank (xs ++ ys) ≡ (all_blank xs && all_blank ys)
unfolding all_blank
all_blank-append [] ys = refl
all_blank-append (x ∷ xs) ys = ground (arith, all_blank-append xs ys)

section_chunks-blank :
    (doc title : Text) (ss : List (List Text))
    → section_chunks doc title ss ≡ []
    → all_blank (concat ss) ≡ true
unfolding section_chunks concat
section_chunks-blank doc title [] h = unfold all_blank in refl
section_chunks-blank doc title (s ∷ ss) h = ground (
  arith,
  section_chunks-blank doc title ss,
  trim_space-blank (join_lines s),
  join_lines-blank s,
  all_blank-append s (concat ss),
)

-- Where no section has a chunk, the text is blank.
sections-blank :
    (doc title md : Text)
    → section_chunks doc title (sections (split_lines md)) ≡ []
    → (trim_space md == []) ≡ true
sections-blank doc title md h =
    trim_space-blank md
    ∙ ap blank (sym (join_lines-split_lines md))
    ∙ join_lines-blank (split_lines md)
    ∙ ap all_blank (sym (sections-concat (split_lines md)))
    ∙ section_chunks-blank doc title (sections (split_lines md)) h

or_whole-none :
    (doc title md : Text) (cs : List Chunk)
    → (cs ≡ [] → (trim_space md == []) ≡ true)
    → or_whole doc title md cs ≡ cs
unfolding or_whole put_chunk
or_whole-none doc title md [] h = rw (h refl) refl
or_whole-none doc title md (c ∷ cs) h = refl

-- The chunks of a text are the sections of its lines that are not blank, in order. A section begins at
-- the first line and at each line of two signs, no third and a text, and its title is that text; the title
-- of the section before is the text of the document's first heading, of any level, or else the
-- document's name. The sections together are the lines, and the lines joined are the text.
pub chunk_markdown-sections :
    (doc md : Text)
    → (chunk_markdown doc md
        ≡ section_chunks doc (first_heading doc (split_lines md)) (sections (split_lines md)))
      × (concat (sections (split_lines md)) ≡ split_lines md)
      × (join_lines (split_lines md) ≡ md)
unfolding chunk_markdown
chunk_markdown-sections doc md =
    let lines = split_lines md in
    let title = doc_title doc lines in
    (
      ap (or_whole doc title md) (cut_all-sections doc title lines)
          ∙ or_whole-none doc title md (section_chunks doc title (sections lines))
              (sections-blank doc title md)
          ∙ ap (λ t. section_chunks doc t (sections lines)) (doc_title-first doc lines),
      sections-concat lines,
      join_lines-split_lines md,
    )

blank-chunks :
    (doc title : Text) (ss : List (List Text))
    → all_blank (concat ss) ≡ true
    → section_chunks doc title ss ≡ []
unfolding section_chunks concat
blank-chunks doc title [] h = refl
blank-chunks doc title (s ∷ ss) h = ground (
  arith,
  blank-chunks doc title ss,
  trim_space-blank (join_lines s),
  join_lines-blank s,
  all_blank-append s (concat ss),
)

-- A text has no chunk exactly where it is blank.
pub chunk_markdown-eq-nil_iff :
    (doc md : Text) → (chunk_markdown doc md ≡ []) ↔ (trim_space md ≡ [])
chunk_markdown-eq-nil_iff doc md =
    let lines = split_lines md in
    let title = first_heading doc lines in
    let made = (chunk_markdown-sections doc md).0 in
    let whole : blank md ≡ all_blank (concat (sections lines)) =
      ap blank (sym (join_lines-split_lines md))
      ∙ join_lines-blank lines
      ∙ ap all_blank (sym (sections-concat lines)) in
    (
      (λ h. (text_beq_iff (trim_space md) []).0 (sections-blank doc title md (sym made ∙ h))),
      (λ h.
          let none_left : blank md ≡ true =
            sym (trim_space-blank md) ∙ (text_beq_iff (trim_space md) []).1 h in
          made ∙ blank-chunks doc title (sections lines) (sym whole ∙ none_left)),
    )
