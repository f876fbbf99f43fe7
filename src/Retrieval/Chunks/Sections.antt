-- ===== src/Retrieval/Chunks/Sections.antt =====
-- The chunks of a document compared with a partition of its lines into sections.
use mathlib.Core.List.{append_assoc, append-nil}
use oncall_agent.Prelude.{
  Bool, true, false, List, [], ◌∷◌, ◌++◌, Text, if◌then◌else◌, ◌==◌, text_beq, text_eq, trim_space,
  ◌≡◌, refl, arith, Bool-cases, inl, inr, ap, ◌∙◌, sym,
}
use oncall_agent.Retrieval.Chunks.{Chunk, join_lines, Cut, put_chunk, flush, cut_line, cut_lines}
use oncall_agent.Retrieval.Chunks.Headings.{
  begins, section_text, is_section-begins, parse_heading-begins,
}

unfoldable pub starts : List Text → Bool
starts [] = false
starts (line ∷ lines) = begins line

-- A line goes to the front of the first section, unless that begins with a heading of its own.
unfoldable pub glue : List Text → List (List Text) → List (List Text)
unfolding starts
glue [] sections = sections
glue (line ∷ lines) [] = (line ∷ lines) ∷ []
glue (line ∷ lines) (s ∷ ss) =
    if starts s then (line ∷ lines) ∷ s ∷ ss else ((line ∷ lines) ++ s) ∷ ss

unfoldable pub sections : List Text → List (List Text)
unfolding glue
sections [] = []
sections (line ∷ lines) = glue (line ∷ []) (sections lines)

-- The title of a section's heading, and the document's where it has none.
unfoldable pub section_title : Text → List Text → Text
section_title title [] = title
section_title title (line ∷ lines) = if begins line then section_text line else title

-- The chunks of sections: those that are not blank, under their titles.
unfoldable pub section_chunks : Text → Text → List (List Text) → List Chunk
unfolding section_title
section_chunks doc title [] = []
section_chunks doc title (s ∷ ss) =
    let rest = section_chunks doc title ss in
    let snippet = trim_space (join_lines s) in
    if snippet == []
    then rest
    else record { doc = doc; title = section_title title s; snippet = snippet } ∷ rest

-- The title that the loop has with a section that is being read.
open_title : List Text → Text
open_title [] = []
open_title (line ∷ lines) = if begins line then section_text line else []

-- The state in which the loop reads the lines `cur`.
state : List Chunk → List Text → Cut
state chunks cur = record { chunks = chunks; cur_title = open_title cur; cur = cur }

open_title-snoc :
    (line : Text) (cur : List Text)
    → begins line ≡ false
    → open_title (cur ++ line ∷ []) ≡ open_title cur
unfolding open_title
open_title-snoc line [] h = rw h refl
open_title-snoc line (l ∷ cur) h = refl

glue-snoc :
    (line : Text) (cur : List Text) (ss : List (List Text))
    → begins line ≡ false
    → glue (cur ++ line ∷ []) ss ≡ glue cur (glue (line ∷ []) ss)
unfolding glue starts
glue-snoc line [] ss h = refl
glue-snoc line (l ∷ cur) [] h = rw h refl
glue-snoc line (l ∷ cur) (s ∷ ss) h = elim (Bool-cases (starts s)) [
  | inl e ↦ rw (e, h) refl
  | inr e ↦ rw (e, h) (ap (λ z. (l ∷ z) ∷ ss) (append_assoc cur (line ∷ []) s))
]

put_chunk-section :
    (doc title : Text) (s : List Text) (chunks : List Chunk)
    → put_chunk doc (section_title title s) (trim_space (join_lines s)) chunks
      ≡ chunks ++ section_chunks doc title (s ∷ [])
unfolding put_chunk section_chunks
put_chunk-section doc title s chunks = elim (Bool-cases (trim_space (join_lines s) == [])) [
  | inl e ↦ rw (e, append-nil) refl
  | inr e ↦ rw e refl
]

-- A heading's section is cut before it.
glue-heading :
    (line : Text) (cur : List Text) (ss : List (List Text))
    → begins line ≡ true
    → (l : Text) → glue (l ∷ cur) (glue (line ∷ []) ss) ≡ (l ∷ cur) ∷ glue (line ∷ []) ss
unfolding glue starts
glue-heading line cur [] h l = rw h refl
glue-heading line cur (s ∷ ss) h l = elim (Bool-cases (starts s)) [
  | inl e ↦ rw (e, h) refl
  | inr e ↦ rw (e, h) refl
]

section_chunks-cons :
    (doc title : Text) (s : List Text) (ss : List (List Text))
    → section_chunks doc title (s ∷ ss)
      ≡ section_chunks doc title (s ∷ []) ++ section_chunks doc title ss
unfolding section_chunks
section_chunks-cons doc title s ss = elim (Bool-cases (trim_space (join_lines s) == [])) [
  | inl e ↦ rw e refl
  | inr e ↦ rw e refl
]

section-heading : (line : Text) → begins line ≡ true → (section_text line == []) ≡ false
unfolding begins
section-heading line h = ground arith

-- The title under which the loop puts what it has read.
title-state :
    (title l : Text) (cur : List Text)
    → (if open_title (l ∷ cur) == [] then title else open_title (l ∷ cur))
      ≡ section_title title (l ∷ cur)
unfolding open_title section_title text_beq
title-state title l cur = elim (Bool-cases (begins l)) [
  | inl e ↦ rw (e, section-heading l e) refl
  | inr e ↦ rw e refl
]

flush-chunks :
    (doc title l : Text) (cur : List Text) (chunks : List Chunk)
    → (flush doc title (state chunks (l ∷ cur))).chunks
      ≡ chunks ++ section_chunks doc title ((l ∷ cur) ∷ [])
unfolding flush state
flush-chunks doc title l cur chunks =
    ap (λ t. put_chunk doc t (trim_space (join_lines (l ∷ cur))) chunks) (title-state title l cur)
    ∙ put_chunk-section doc title (l ∷ cur) chunks

cut_heading :
    (doc title line l : Text) (cur : List Text) (chunks : List Chunk)
    → begins line ≡ true
    → cut_line doc title line (state chunks (l ∷ cur))
      ≡ state (chunks ++ section_chunks doc title ((l ∷ cur) ∷ [])) (line ∷ [])
unfolding cut_line state open_title
cut_heading doc title line l cur chunks h =
    let flushed = flush-chunks doc title l cur chunks in
    let told = is_section-begins line ∙ h in
    let text = parse_heading-begins line h in rw (told, text, h, flushed) refl

cut_other :
    (doc title line : Text) (cur : List Text) (chunks : List Chunk)
    → begins line ≡ false
    → cut_line doc title line (state chunks cur) ≡ state chunks (cur ++ line ∷ [])
unfolding cut_line state
cut_other doc title line cur chunks h =
    let told = is_section-begins line ∙ h in rw (told, open_title-snoc line cur h) refl

cut_first :
    (doc title line : Text) (chunks : List Chunk)
    → begins line ≡ true
    → cut_line doc title line (state chunks []) ≡ state chunks (line ∷ [])
unfolding cut_line state open_title flush
cut_first doc title line chunks h =
    let told = is_section-begins line ∙ h in
    let text = parse_heading-begins line h in rw (told, text, h) refl

-- A path between states is one between the chunks that are left.
cut_lines-from :
    (doc title : Text) (lines : List Text) {s t : Cut} {cs : List Chunk}
    → s ≡ t
    → (cut_lines doc title lines t).chunks ≡ cs
    → (cut_lines doc title lines s).chunks ≡ cs
cut_lines-from doc title lines e h = ap (λ z. (cut_lines doc title lines z).chunks) e ∙ h

section_chunks-to :
    (doc title : Text) (chunks : List Chunk) {ss ts : List (List Text)}
    → ss ≡ ts
    → chunks ++ section_chunks doc title ss ≡ chunks ++ section_chunks doc title ts
section_chunks-to doc title chunks e = ap (λ z. chunks ++ section_chunks doc title z) e

cut_lines-sections :
    (doc title : Text) (lines cur : List Text) (chunks : List Chunk)
    → (cut_lines doc title lines (state chunks cur)).chunks
      ≡ chunks ++ section_chunks doc title (glue cur (sections lines))
unfolding cut_lines sections
cut_lines-sections doc title [] [] chunks =
    unfold section_chunks glue flush state in sym (append-nil chunks)
cut_lines-sections doc title [] (l ∷ cur) chunks =
    unfold glue in flush-chunks doc title l cur chunks
cut_lines-sections doc title (line ∷ lines) [] chunks = elim (Bool-cases (begins line)) [
  | inr e ↦
      cut_lines-from doc title lines (cut_other doc title line [] chunks e)
        (cut_lines-sections doc title lines (line ∷ []) chunks)
      ∙ section_chunks-to doc title chunks (glue-snoc line [] (sections lines) e)
  | inl e ↦
      cut_lines-from doc title lines (cut_first doc title line chunks e)
        (unfold glue in cut_lines-sections doc title lines (line ∷ []) chunks)
]
cut_lines-sections doc title (line ∷ lines) (l ∷ rest) chunks =
    let cs = section_chunks doc title ((l ∷ rest) ∷ []) in
    elim (Bool-cases (begins line)) [
      | inr e ↦
          cut_lines-from doc title lines (cut_other doc title line (l ∷ rest) chunks e)
            (cut_lines-sections doc title lines (l ∷ (rest ++ line ∷ [])) chunks)
          ∙ section_chunks-to doc title chunks (glue-snoc line (l ∷ rest) (sections lines) e)
      | inl e ↦
          let next = glue (line ∷ []) (sections lines) in
          cut_lines-from doc title lines (cut_heading doc title line l rest chunks e)
            (cut_lines-sections doc title lines (line ∷ []) (chunks ++ cs))
          ∙ append_assoc chunks cs (section_chunks doc title next)
          ∙ ap (λ z. chunks ++ z) (sym (section_chunks-cons doc title (l ∷ rest) next))
          ∙ sym (section_chunks-to doc title chunks (glue-heading line rest (sections lines) e l))
    ]

pub cut_all-sections :
    (doc title : Text) (lines : List Text)
    → (cut_lines doc title lines (record { chunks = []; cur_title = []; cur = [] })).chunks
      ≡ section_chunks doc title (sections lines)
unfolding state glue open_title
cut_all-sections doc title lines = cut_lines-sections doc title lines [] []
