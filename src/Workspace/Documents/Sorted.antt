-- ===== src/Workspace/Documents/Sorted.antt =====
-- The rows of the documents in the order of the query.
use oncall_agent.Prelude.{
  false, some, List, [], ◌∷◌, Text, if◌then◌else◌, ◌==◌, text_eq, text_beq_iff, text_lt, ◌||◌, ◌&&◌,
  if_elim, lookup, keys, has, Distinct, All, ◌≡◌, refl, arith, ◌∙◌,
}
use oncall_agent.Workspace.Documents.{DocumentRow, place, sorted}

-- The rows stand under the ids of their documents.
pub record IsKeyed (rows : List (Text × DocumentRow)) : Type 0 where
  pub distinct : Distinct (keys rows)
  pub ids : All (λ e. e.1.document.id ≡ e.0) rows

lookup-place :
    (id : Text) (row : DocumentRow) (rows : List (Text × DocumentRow)) (k : Text)
    → has id (keys rows) ≡ false
    → lookup k (place id row rows) ≡ (if id == k then some row else lookup k rows)
unfolding place
lookup-place id row [] k h = refl
lookup-place id row ((j, other) ∷ rows) k h =
    ground
      (arith, lookup-place id row rows k, text_beq_iff id k, text_beq_iff j id, text_beq_iff j k)

has-place :
    (id : Text) (row : DocumentRow) (rows : List (Text × DocumentRow)) (k : Text)
    → has k (keys (place id row rows)) ≡ (id == k || has k (keys rows))
unfolding place
has-place id row [] k = refl
has-place id row ((j, other) ∷ rows) k = ground (arith, has-place id row rows k)

place-IsKeyed :
    (id : Text) (row : DocumentRow) (rows : List (Text × DocumentRow))
    → has id (keys rows) ≡ false
    → row.document.id ≡ id
    → IsKeyed rows
    → IsKeyed (place id row rows)
unfolding place
place-IsKeyed id row [] h a k = record { distinct = (refl, tt); ids = (a, tt) }
place-IsKeyed id row ((j, other) ∷ rows) h a k =
    let rest =
      place-IsKeyed id row rows (ground arith) a
        (record { distinct = k.distinct.1; ids = k.ids.1 }) in
    if_elim IsKeyed (text_lt row.title other.title || (row.title == other.title && text_lt id j)) _
      _ (record { distinct = (h, k.distinct); ids = (a, k.ids) })
      (record {
        distinct = (
          ground
              (arith, has-place id row rows j, text_beq_iff j id, text_beq_iff id j, k.distinct.0),
          rest.distinct,
        );
        ids = (k.ids.0, rest.ids);
      })

has-sorted :
    (rows : List (Text × DocumentRow)) (k : Text) → has k (keys (sorted rows)) ≡ has k (keys rows)
unfolding sorted
has-sorted [] k = refl
has-sorted ((id, row) ∷ rows) k =
    ground (arith, has-place id row (sorted rows) k, has-sorted rows k)

pub lookup-sorted :
    (rows : List (Text × DocumentRow)) (k : Text)
    → Distinct (keys rows)
    → lookup k (sorted rows) ≡ lookup k rows
unfolding sorted
lookup-sorted [] k d = refl
lookup-sorted ((id, row) ∷ rows) k d =
    ground (
      arith,
      lookup-place id row (sorted rows) k,
      has-sorted rows id,
      lookup-sorted rows k,
      d.0,
      d.1,
    )

pub sorted-IsKeyed : (rows : List (Text × DocumentRow)) → IsKeyed rows → IsKeyed (sorted rows)
unfolding sorted
sorted-IsKeyed [] k = k
sorted-IsKeyed ((id, row) ∷ rows) k =
    place-IsKeyed id row (sorted rows) (has-sorted rows id ∙ k.distinct.0) k.ids.0
      (sorted-IsKeyed rows (record { distinct = k.distinct.1; ids = k.ids.1 }))
