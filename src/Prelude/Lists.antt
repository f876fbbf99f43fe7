-- ===== src/Prelude/Lists.antt =====
-- Lists measured by native numbers, and the slices and loops that the components share.
use Prim.Native.Nat.{ℕ, zero, suc, ◌+◌, ◌-◌, ◌≤◌}
use mathlib.Core.Path.{◌≡◌, refl, ap}
use mathlib.Core.Logic.{◌⊎◌, inl, inr}
use mathlib.Core.Bool.{Bool, true, false, ◌||◌, not, ◌&&◌}
use mathlib.Core.List.{List, [], ◌∷◌, ◌++◌}
use native.Mathlib.Omega.{arith}
use oncall_agent.Prelude.Tests.{Eq, ◌==◌, if◌then◌else◌}

module _ {ℓ} {A : Type ℓ} where
  abbrev pub length : List A → ℕ
  length [] = 0
  length (x ∷ xs) = suc (length xs)

  abbrev pub is_empty : List A → Bool
  is_empty [] = true
  is_empty (x ∷ xs) = false

  -- `xs[:n]`, where `n` is at most the length, or `xs` whole.
  abbrev pub take : ℕ → List A → List A
  take zero xs = []
  take (suc n) [] = []
  take (suc n) (x ∷ xs) = x ∷ take n xs

  -- `xs[n:]`.
  abbrev pub drop : ℕ → List A → List A
  drop zero xs = xs
  drop (suc n) [] = []
  drop (suc n) (x ∷ xs) = drop n xs

  -- The loop that keeps the items that pass a test.
  abbrev pub keep : (A → Bool) → List A → List A
  keep p [] = []
  keep p (x ∷ xs) = if p x then x ∷ keep p xs else keep p xs

  abbrev pub any : (A → Bool) → List A → Bool
  any p [] = false
  any p (x ∷ xs) = p x || any p xs

  abbrev pub All {κ} : (A → Type κ) → List A → Type κ
  All P [] = Unit
  All P (x ∷ xs) = P x × All P xs

  pub length-append : (xs ys : List A) → length (xs ++ ys) ≡ length xs + length ys
  length-append [] ys = omega arith
  length-append (x ∷ xs) ys = omega (arith, length-append xs ys)

  pub length-take-le : (n : ℕ) (xs : List A) → length (take n xs) ≤ n
  length-take-le zero xs = omega arith
  length-take-le (suc n) [] = omega arith
  length-take-le (suc n) (x ∷ xs) = omega (arith, length-take-le n xs)

  pub length-take-le_length : (n : ℕ) (xs : List A) → length (take n xs) ≤ length xs
  length-take-le_length zero xs = omega arith
  length-take-le_length (suc n) [] = omega arith
  length-take-le_length (suc n) (x ∷ xs) = omega (arith, length-take-le_length n xs)

  pub length-drop : (n : ℕ) (xs : List A) → length (drop n xs) ≡ length xs - n
  length-drop zero xs = omega arith
  length-drop (suc n) [] = omega arith
  length-drop (suc n) (x ∷ xs) = omega (arith, length-drop n xs)

  pub take-append-drop : (n : ℕ) (xs : List A) → take n xs ++ drop n xs ≡ xs
  take-append-drop zero xs = refl
  take-append-drop (suc n) [] = refl
  take-append-drop (suc n) (x ∷ xs) = ap (λ l. x ∷ l) (take-append-drop n xs)

  pub length-keep-le : (p : A → Bool) (xs : List A) → length (keep p xs) ≤ length xs
  length-keep-le p [] = omega arith
  length-keep-le p (x ∷ xs) = ground (arith, length-keep-le p xs)

  pub All-append {κ} : (P : A → Type κ) (xs ys : List A) → All P xs → All P ys → All P (xs ++ ys)
  All-append P [] ys h k = k
  All-append P (x ∷ xs) ys h k = (h.0, All-append P xs ys h.1 k)

  pub All-take {κ} : (P : A → Type κ) (n : ℕ) (xs : List A) → All P xs → All P (take n xs)
  All-take P zero xs h = tt
  All-take P (suc n) [] h = tt
  All-take P (suc n) (x ∷ xs) h = (h.0, All-take P n xs h.1)

  pub All-keep : (p : A → Bool) (xs : List A) → All (λ x. p x ≡ true) (keep p xs)
  All-keep p [] = tt
  All-keep p (x ∷ xs) = ground (arith, All-keep p xs)

-- The item stands in the list.
abbrev pub In : {A : Type 0} → A → List A → Type 0
In x [] = ⊥
In x (y ∷ ys) = (y ≡ x) ⊎ In x ys

module _ {ℓ} {A : Type ℓ} ⦃e : Eq A⦄ where
  -- Whether the value is an item of the list.
  abbrev pub has : A → List A → Bool
  has a [] = false
  has a (x ∷ xs) = x == a || has a xs

  pub has-append : (a : A) (xs ys : List A) → has a (xs ++ ys) ≡ has a xs || has a ys
  has-append a [] ys = refl
  has-append a (x ∷ xs) ys = ground (arith, has-append a xs ys)

  -- No item stands twice.
  abbrev pub Distinct : List A → Type 0
  Distinct [] = Unit
  Distinct (x ∷ xs) = (has x xs ≡ false) × Distinct xs

  -- The list without a value.
  abbrev without : A → List A → List A
  without a = keep (λ x. not (x == a))

  has-without : (a b : A) (xs : List A) → has b (without a xs) ≡ (has b xs && not (a == b))
  has-without a b [] = refl
  has-without a b (x ∷ xs) =
      ground (arith, has-without a b xs, e.equal_iff x a, e.equal_iff x b, e.equal_iff a b)

  length-without-le : (a : A) (xs : List A) → length (without a xs) ≤ length xs
  length-without-le a [] = omega arith
  length-without-le a (x ∷ xs) = ground (arith, length-without-le a xs)

  length-without : (a : A) (xs : List A) → has a xs ≡ true → suc (length (without a xs)) ≤ length xs
  length-without a [] h = cc
  length-without a (x ∷ xs) h =
      ground (arith, length-without a xs, length-without-le a xs, e.equal_iff x a)

  pub snoc-Distinct :
      (x : A) (xs : List A) → Distinct xs → has x xs ≡ false → Distinct (xs ++ x ∷ [])
  snoc-Distinct x [] d h = (refl, tt)
  snoc-Distinct x (y ∷ ys) d h =
      ground
        (arith, snoc-Distinct x ys d.1, has-append y ys (x ∷ []), e.equal_iff y x, e.equal_iff x y)

  -- Distinct items that all stand in a list are no more than the list is long.
  pub length-Distinct-le :
      (xs ys : List A)
      → Distinct xs
      → ((j : A) → has j xs ≡ true → has j ys ≡ true)
      → length xs ≤ length ys
  length-Distinct-le [] ys d h = omega arith
  length-Distinct-le (x ∷ xs) ys d h =
      let there : has x ys ≡ true = h x (ground (arith, e.equal_iff x x)) in
      let rest =
        length-Distinct-le xs (without x ys) d.1
          λ j k. ground (arith, k, h j, d.0, e.equal_iff x j, has-without x j ys) in
      omega (arith, length-without x ys there, rest)

module _ {ℓ κ} {A : Type ℓ} (P : A → Type κ) where
  pub All-keep_of : (p : A → Bool) (xs : List A) → All P xs → All P (keep p xs)
  All-keep_of p [] h = tt
  All-keep_of p (x ∷ xs) h = ground (arith, All-keep_of p xs h.1)

pub List-cases {ℓ} :
    {A : Type ℓ} (xs : List A) → (xs ≡ []) ⊎ ((x : A) × (ys : List A) × (xs ≡ x ∷ ys))
List-cases [] = inl refl
List-cases (x ∷ xs) = inr (x, xs, refl)
