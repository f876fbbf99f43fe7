-- ===== src/Prelude/Maps.antt =====
-- Go's maps as association lists. A map whose keys are distinct has `length m` entries, which is
-- `len(m)`; every operation keeps the keys distinct. `range` visits the entries in the list's order.
use Prim.Native.Nat.{suc, ◌≤◌}
use mathlib.Core.Path.{◌≡◌, refl, subst₂}
use mathlib.Core.Logic.{◌↔◌, inl, inr}
use mathlib.Core.Bool.{Bool, false, ◌||◌}
use mathlib.Core.Option.{Option, none, some}
use mathlib.Core.List.{List, [], ◌∷◌}
use native.Mathlib.Omega.{arith}
use oncall_agent.Prelude.Tests.{Eq, if_elim, Bool-cases, ◌==◌, if◌then◌else◌}
use oncall_agent.Prelude.Lists.{length, keep, has, Distinct, All}

module _ {ℓ κ} {K : Type ℓ} {V : Type κ} where
  abbrev pub keys : List (K × V) → List K
  keys [] = []
  keys ((k, v) ∷ m) = k ∷ keys m

module _ {ℓ κ} {K : Type ℓ} {V : Type κ} ⦃e : Eq K⦄ where
  -- `v, ok := m[k]`
  abbrev pub lookup : K → List (K × V) → Option V
  lookup k [] = none
  lookup k ((j, v) ∷ m) = if j == k then some v else lookup k m

  -- `m[k] = v`
  abbrev pub insert : K → V → List (K × V) → List (K × V)
  insert k v [] = (k, v) ∷ []
  insert k v ((j, w) ∷ m) = if j == k then (k, v) ∷ m else (j, w) ∷ insert k v m

  -- `delete(m, k)`
  abbrev pub delete : K → List (K × V) → List (K × V)
  delete k [] = []
  delete k ((j, w) ∷ m) = if j == k then delete k m else (j, w) ∷ delete k m

  pub lookup-insert :
      (k j : K) (v : V) (m : List (K × V))
      → lookup j (insert k v m) ≡ (if k == j then some v else lookup j m)
  lookup-insert k j v [] = refl
  lookup-insert k j v ((i, w) ∷ m) =
      ground (arith, e.equal_iff k j, e.equal_iff i k, e.equal_iff i j, lookup-insert k j v m)

  pub lookup-delete :
      (k j : K) (m : List (K × V)) → lookup j (delete k m) ≡ (if k == j then none else lookup j m)
  lookup-delete k j [] = ground arith
  lookup-delete k j ((i, w) ∷ m) =
      ground (arith, e.equal_iff k j, e.equal_iff i k, e.equal_iff i j, lookup-delete k j m)

  pub lookup-eq-none_iff :
      (k : K) (m : List (K × V)) → (lookup k m ≡ none) ↔ (has k (keys m) ≡ false)
  lookup-eq-none_iff k [] = ground arith
  lookup-eq-none_iff k ((j, w) ∷ m) = ground (arith, lookup-eq-none_iff k m)

  pub length-insert_new :
      (k : K) (v : V) (m : List (K × V))
      → lookup k m ≡ none
      → length (insert k v m) ≡ suc (length m)
  length-insert_new k v [] h = refl
  length-insert_new k v ((j, w) ∷ m) h = ground (arith, length-insert_new k v m)

  pub length-insert_old :
      (k : K) (v w : V) (m : List (K × V)) → lookup k m ≡ some w → length (insert k v m) ≡ length m
  length-insert_old k v w [] h = cc
  length-insert_old k v w ((j, u) ∷ m) h = ground (arith, length-insert_old k v w m)

  pub length-insert-le : (k : K) (v : V) (m : List (K × V)) → length (insert k v m) ≤ suc (length m)
  length-insert-le k v [] = omega arith
  length-insert-le k v ((j, u) ∷ m) = ground (arith, length-insert-le k v m)

  pub length-delete-le : (k : K) (m : List (K × V)) → length (delete k m) ≤ length m
  length-delete-le k [] = omega arith
  length-delete-le k ((j, u) ∷ m) = ground (arith, length-delete-le k m)

  pub length-delete_old :
      (k : K) (w : V) (m : List (K × V))
      → lookup k m ≡ some w
      → suc (length (delete k m)) ≤ length m
  length-delete_old k w [] h = cc
  length-delete_old k w ((j, u) ∷ m) h =
      ground (arith, length-delete_old k w m, length-delete-le k m)

  pub has-keys-insert :
      (j k : K) (v : V) (m : List (K × V))
      → has j (keys (insert k v m)) ≡ (k == j || has j (keys m))
  has-keys-insert j k v [] = ground arith
  has-keys-insert j k v ((i, w) ∷ m) =
      ground (arith, e.equal_iff i k, e.equal_iff i j, e.equal_iff k j, has-keys-insert j k v m)

  pub insert-Distinct :
      (k : K) (v : V) (m : List (K × V)) → Distinct (keys m) → Distinct (keys (insert k v m))
  insert-Distinct k v [] h = (refl, tt)
  insert-Distinct k v ((j, w) ∷ m) h =
      ground (
        arith,
        e.equal_iff j k,
        e.equal_iff k j,
        has-keys-insert j k v m,
        insert-Distinct k v m h.1,
      )

  pub has-keys-delete :
      (j k : K) (m : List (K × V)) → has j (keys m) ≡ false → has j (keys (delete k m)) ≡ false
  has-keys-delete j k [] h = refl
  has-keys-delete j k ((i, w) ∷ m) h = ground (arith, has-keys-delete j k m)

  pub delete-Distinct :
      (k : K) (m : List (K × V)) → Distinct (keys m) → Distinct (keys (delete k m))
  delete-Distinct k [] h = tt
  delete-Distinct k ((j, w) ∷ m) h = ground (arith, has-keys-delete j k m, delete-Distinct k m h.1)

  pub has-keys-keep :
      (p : K × V → Bool) (j : K) (m : List (K × V))
      → has j (keys m) ≡ false
      → has j (keys (keep p m)) ≡ false
  has-keys-keep p j [] h = refl
  has-keys-keep p j ((i, w) ∷ m) h = ground (arith, has-keys-keep p j m)

  pub keep-Distinct :
      (p : K × V → Bool) (m : List (K × V)) → Distinct (keys m) → Distinct (keys (keep p m))
  keep-Distinct p [] h = tt
  keep-Distinct p ((j, w) ∷ m) h = ground (arith, has-keys-keep p j m, keep-Distinct p m h.1)

  -- With distinct keys, filtering the entries filters what a lookup finds.
  pub lookup-keep :
      (p : K × V → Bool) (k : K) (m : List (K × V))
      → Distinct (keys m)
      → (w : V) → lookup k m ≡ some w
      → lookup k (keep p m) ≡ (if p (k, w) then some w else none)
  lookup-keep p k [] d w h = cc
  lookup-keep p k ((j, u) ∷ m) d w h = ground (
    arith,
    e.equal_iff j k,
    lookup-keep p k m d.1 w,
    (lookup-eq-none_iff j (keep p m)).1 (has-keys-keep p j m d.0),
  )

  pub lookup-keep-none :
      (p : K × V → Bool) (k : K) (m : List (K × V)) → lookup k m ≡ none → lookup k (keep p m) ≡ none
  lookup-keep-none p k [] h = refl
  lookup-keep-none p k ((j, u) ∷ m) h = ground (arith, lookup-keep-none p k m)

  -- What holds of every entry holds of the one that a lookup finds.
  pub All-lookup {μ} :
      (P : K × V → Type μ) (k : K) (w : V) (m : List (K × V))
      → lookup k m ≡ some w
      → All P m
      → P (k, w)
  All-lookup P k w [] h a = cc
  All-lookup P k w ((j, u) ∷ m) h a = elim (Bool-cases (j == k)) [
    | inl same ↦
        let j≡k : j ≡ k = (e.equal_iff j k).0 same in
        let u≡w : u ≡ w = ground arith in subst₂ (λ x y. P (x, y)) j≡k u≡w a.0
    | inr other ↦ All-lookup P k w m (ground arith) a.1
  ]

  pub All-insert {μ} :
      (P : K × V → Type μ) (k : K) (v : V) (m : List (K × V))
      → P (k, v)
      → All P m
      → All P (insert k v m)
  All-insert P k v [] h a = (h, tt)
  All-insert P k v ((j, w) ∷ m) h a =
      if_elim (All P) (j == k) _ _ (h, a.1) (a.0, All-insert P k v m h a.1)
