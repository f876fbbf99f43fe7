-- ===== src/Prelude/Strings.antt =====
-- The functions of Go's packages `strings` and `unicode` that the components use, over lists of
-- code points.
use Prim.Native.Nat.{ℕ, zero, suc, ◌+◌, ◌/◌, ◌%◌}
use mathlib.Core.Bool.{Bool, true, false, ◌&&◌, ◌||◌}
use mathlib.Core.List.{List, [], ◌∷◌, ◌++◌, reverse}
use oncall_agent.Prelude.Tests.{nat_eq, if◌then◌else◌, leb, ltb, nat_beq, Text}
use oncall_agent.Prelude.Lists.{has}

-- unicode.IsSpace
unfoldable pub is_space : ℕ → Bool
is_space c =
    (leb 9 c && leb c 13)
    || nat_beq c 32
    || nat_beq c 0x85
    || nat_beq c 0xa0
    || nat_beq c 0x1680
    || (leb 0x2000 c && leb c 0x200a)
    || nat_beq c 0x2028
    || nat_beq c 0x2029
    || nat_beq c 0x202f
    || nat_beq c 0x205f
    || nat_beq c 0x3000

-- The ASCII letters in lower case; a code point above 127 stays as it is.
unfoldable pub lower_ascii : ℕ → ℕ
lower_ascii c = if leb b'A' c && leb c b'Z' then c + 32 else c

module _ (p : ℕ → Bool) where
  -- strings.TrimLeftFunc
  unfoldable pub trim_left : Text → Text
  trim_left [] = []
  trim_left (c ∷ s) = if p c then trim_left s else c ∷ s

  -- strings.TrimRightFunc
  unfoldable pub trim_right : Text → Text
  trim_right [] = []
  trim_right (c ∷ s) = cut c (trim_right s)
    where
      cut : ℕ → Text → Text
      cut c [] = if p c then [] else c ∷ []
      cut c (d ∷ t) = c ∷ d ∷ t

-- strings.TrimSpace
unfoldable pub trim_space : Text → Text
unfolding trim_left trim_right is_space
trim_space s = trim_right is_space (trim_left is_space s)

-- strings.Trim(s, cutset)
unfoldable pub trim : Text → Text → Text
unfolding trim_left trim_right
trim s cutset = trim_right (λ c. has c cutset) (trim_left (λ c. has c cutset) s)

-- strings.HasPrefix
unfoldable pub has_prefix : Text → Text → Bool
has_prefix s [] = true
has_prefix [] (d ∷ p) = false
has_prefix (c ∷ s) (d ∷ p) = nat_beq c d && has_prefix s p

-- strings.HasSuffix
unfoldable pub has_suffix : Text → Text → Bool
unfolding has_prefix
has_suffix s p = has_prefix (reverse s) (reverse p)

-- strings.Contains
unfoldable pub contains : Text → Text → Bool
unfolding has_prefix
contains [] p = has_prefix [] p
contains (c ∷ s) p = has_prefix (c ∷ s) p || contains s p

-- strings.FieldsFunc: the runs of code points at which `p` is false. `w` is the run being read.
module _ (p : ℕ → Bool) where
  abbrev end_word : Text → List Text → List Text
  end_word [] ws = ws
  end_word (c ∷ w) ws = (c ∷ w) ∷ ws

  unfoldable pub fields_from : Text → Text → List Text
  fields_from w [] = end_word w []
  fields_from w (c ∷ s) = elim (p c) [
    | true ↦ end_word w (fields_from [] s)
    | false ↦ fields_from (w ++ c ∷ []) s
  ]

-- strings.Fields
unfoldable pub fields : Text → List Text
unfolding fields_from is_space
fields s = fields_from is_space [] s

-- The order of Go's strings, on ASCII texts: by the first code point that differs.
unfoldable pub text_lt : Text → Text → Bool
text_lt s [] = false
text_lt [] (d ∷ t) = true
text_lt (c ∷ s) (d ∷ t) = ltb c d || (nat_beq c d && text_lt s t)

-- strconv.Itoa of a number that is not negative; `fuel` is more than the number.
unfoldable pub decimal_from : ℕ → ℕ → Text → Text
decimal_from zero n acc = acc
decimal_from (suc fuel) n acc =
    let next = (b'0' + n % 10) ∷ acc in
    let rest = decimal_from fuel (n / 10) next in if ltb n 10 then next else rest

unfoldable pub decimal : ℕ → Text
unfolding decimal_from
decimal n = decimal_from (suc n) n []
