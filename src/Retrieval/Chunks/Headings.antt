-- ===== src/Retrieval/Chunks/Headings.antt =====
-- The headings of a markdown line, read off its first code points, and what `headingLevel` finds.
use oncall_agent.Prelude.{
  ℕ, suc, Bool, true, false, not, ◌&&◌, List, [], ◌∷◌, Text, codes, if◌then◌else◌, nat_beq,
  nat_beq_iff, ◌==◌, text_beq, text_eq, trim_space, trim_left, trim_right, has_prefix, drop, ◌≡◌,
  refl, arith, Bool-cases, inl, inr, ap, ◌∙◌, sym,
}
use oncall_agent.Retrieval.Chunks.{count_signs, heading_level, parse_heading, doc_title, is_section}

-- The text after the signs at the front.
unfoldable pub after_signs : Text → Text
after_signs [] = []
after_signs (c ∷ s) = if nat_beq c b'#' then after_signs s else c ∷ s

-- The text of a heading of any level, and empty where the line is none.
unfoldable pub heading_text : Text → Text
unfolding after_signs
heading_text [] = []
heading_text (c ∷ s) = if nat_beq c b'#' then trim_space (after_signs s) else []

-- The text of a heading of the second level: two signs and no third.
unfoldable pub second_text : Text → Text
second_text [] = []
second_text (a ∷ []) = []
second_text (a ∷ b ∷ []) = []
second_text (a ∷ b ∷ c ∷ s) =
    if nat_beq a b'#' && nat_beq b b'#' && not (nat_beq c b'#') then trim_space (c ∷ s) else []

unfoldable pub section_text : Text → Text
unfolding second_text
section_text line = second_text (trim_space line)

-- A section begins with a heading of the second level that has a text.
unfoldable pub begins : Text → Bool
unfolding section_text
begins line = not (section_text line == [])

-- The text of the first heading that has one, and the document's name where there is none.
unfoldable pub first_heading : Text → List Text → Text
unfolding heading_text
first_heading doc [] = doc
first_heading doc (line ∷ lines) =
    let text = heading_text (trim_space line) in
    let later = first_heading doc lines in if text == [] then later else text

drop-count_signs : (s : Text) → drop (count_signs s) s ≡ after_signs s
unfolding count_signs after_signs
drop-count_signs [] = refl
drop-count_signs (c ∷ s) = elim (Bool-cases (nat_beq c b'#')) [
  | inl e ↦ rw e (drop-count_signs s)
  | inr e ↦ rw e refl
]

-- The level and the text that `heading_level` finds in a line without the space around it.
unfoldable level_of : Text → ℕ × Text
unfolding count_signs
level_of s =
    if not (has_prefix s (codes "#"))
    then (0, [])
    else (count_signs s, trim_space (drop (count_signs s) s))

level_of-sign :
    (c : ℕ) (s : Text)
    → nat_beq c b'#' ≡ true
    → level_of (c ∷ s) ≡ (suc (count_signs s), trim_space (after_signs s))
unfolding level_of has_prefix count_signs
level_of-sign c s e = rw e (ap (λ t. (suc (count_signs s), trim_space t)) (drop-count_signs s))

level_of-other : (c : ℕ) (s : Text) → nat_beq c b'#' ≡ false → level_of (c ∷ s) ≡ (0, [])
unfolding level_of has_prefix
level_of-other c s e = rw e refl

level_of-text : (s : Text) → (level_of s).1 ≡ heading_text s
unfolding heading_text
level_of-text [] = unfold level_of has_prefix in refl
level_of-text (c ∷ s) = elim (Bool-cases (nat_beq c b'#')) [
  | inl e ↦ ap (λ z. z.1) (level_of-sign c s e) ∙ rw e refl
  | inr e ↦ ap (λ z. z.1) (level_of-other c s e) ∙ rw e refl
]

-- `lvl == 2 && t != ""`
abbrev is_second : ℕ × Text → Bool
is_second z = nat_beq z.0 2 && not (z.1 == [])

-- After one sign.
second-one :
    (s : Text)
    → is_second (suc (count_signs s), trim_space (after_signs s))
      ≡ not (second_text (b'#' ∷ s) == [])
unfolding second_text count_signs after_signs text_beq trim_space trim_left trim_right
second-one [] = refl
second-one (b ∷ []) = elim (Bool-cases (nat_beq b b'#')) [ inl e ↦ rw e refl | inr e ↦ rw e refl ]
second-one (b ∷ c ∷ s) = elim (Bool-cases (nat_beq b b'#')) [
  | inr e ↦ rw e refl
  | inl e ↦ elim (Bool-cases (nat_beq c b'#')) [
    | inl f ↦ rw (e, f) ground arith
    | inr f ↦ rw (e, f) refl
  ]
]

second_text-other :
    (c : ℕ) (s : Text) → nat_beq c b'#' ≡ false → not (second_text (c ∷ s) == []) ≡ false
unfolding second_text text_beq
second_text-other c [] e = refl
second_text-other c (b ∷ []) e = refl
second_text-other c (b ∷ d ∷ s) e = rw e refl

level_of-section : (s : Text) → is_second (level_of s) ≡ not (second_text s == [])
level_of-section [] = unfold level_of has_prefix second_text text_beq in refl
level_of-section (c ∷ s) = elim (Bool-cases (nat_beq c b'#')) [
  | inl e ↦
      let same : c ≡ b'#' = (nat_beq_iff c b'#').0 e in
      ap is_second (level_of-sign c s e)
      ∙ second-one s
      ∙ ap (λ d. not (second_text (d ∷ s) == [])) (sym same)
  | inr e ↦ ap is_second (level_of-other c s e) ∙ sym (second_text-other c s e)
]

pub parse_heading-text : (line : Text) → parse_heading line ≡ heading_text (trim_space line)
unfolding parse_heading heading_level has_prefix level_of
parse_heading-text line = level_of-text (trim_space line)

pub is_section-begins : (line : Text) → is_section line ≡ begins line
unfolding is_section heading_level begins section_text has_prefix level_of
is_section-begins line = level_of-section (trim_space line)

pub doc_title-first :
    (doc : Text) (lines : List Text) → doc_title doc lines ≡ first_heading doc lines
unfolding doc_title first_heading
doc_title-first doc [] = refl
doc_title-first doc (line ∷ lines) =
    let same = parse_heading-text line in
    ap (λ t. if t == [] then doc_title doc lines else t) same
    ∙ ap (λ r. let text = heading_text (trim_space line) in if text == [] then r else text)
        (doc_title-first doc lines)

second_text-heading : (s : Text) → (second_text s == []) ≡ false → heading_text s ≡ second_text s
unfolding second_text heading_text after_signs text_beq
second_text-heading [] e = absurd (ground arith)
second_text-heading (a ∷ []) e = absurd (ground arith)
second_text-heading (a ∷ b ∷ []) e = absurd (ground arith)
second_text-heading (a ∷ b ∷ c ∷ s) e =
    elim (Bool-cases (nat_beq a b'#' && nat_beq b b'#' && not (nat_beq c b'#'))) [
      | inr k ↦ absurd (ground (arith, e, k))
      | inl k ↦
          let one : nat_beq a b'#' ≡ true = ground (arith, k) in
          let two : nat_beq b b'#' ≡ true = ground (arith, k) in
          let more : nat_beq c b'#' ≡ false = ground (arith, k) in rw (one, two, more) refl
    ]

pub parse_heading-begins :
    (line : Text) → begins line ≡ true → parse_heading line ≡ section_text line
unfolding begins section_text
parse_heading-begins line h =
    parse_heading-text line ∙ second_text-heading (trim_space line) (ground (arith, h))
