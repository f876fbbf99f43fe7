-- ===== src/Workspace/Documents/Ordered.antt =====
-- The order of the tables that the operations on documents keep, and how an operation ends.
use oncall_agent.Prelude.{
  Bool, true, false, Option, none, some, List, [], ◌∷◌, Text, if◌then◌else◌, ◌==◌, text_eq, lookup,
  insert, All, ◌≡◌, refl, arith, Option-cases, inl, inr, lookup-insert, insert-Distinct, All-insert,
  All-lookup,
}
use oncall_agent.Workspace.State.{
  Error, Result, ok, err, Result-cases, no_rows, conflict, invalid, on,
}
use oncall_agent.Workspace.Documents.{
  Version, DocumentRow, Shelf, Knowledge, version_of, load_version, collect, current, sorted,
  restore_projection,
}
use oncall_agent.Workspace.Documents.Put.{update_version}
use oncall_agent.Workspace.Documents.Sorted.{IsKeyed}

-- The rows of documents and versions stand under the ids of what they hold.
pub record IsOrdered (w : Shelf) : Type 0 where
  pub keyed : IsKeyed w.documents
  pub filed : All (λ e. e.1.id ≡ e.0) w.versions

abbrev pub is_refusal : Error → Bool
is_refusal conflict = true
is_refusal invalid = true
is_refusal _ = false

-- How an operation ends: what holds of the tables with an error, and with a result.
abbrev pub Ends {ℓ κ} :
    {B : Type ℓ} → (Shelf → Error → Type κ) → (Shelf → B → Type κ) → Shelf × Result B → Type κ
Ends P Q (w, err e) = P w e
Ends P Q (w, ok b) = Q w b

pub on-Ends {ℓ κ μ} :
    {A : Type ℓ} {B : Type κ} (P : Shelf → Error → Type μ) (Q : Shelf → B → Type μ) (w : Shelf)
    (m : Result A) (rest : A → Shelf × Result B)
    → ((e : Error) → m ≡ err e → P w e)
    → ((a : A) → m ≡ ok a → Ends P Q (rest a))
    → Ends P Q (on w m rest)
unfolding on
on-Ends P Q w (err e) rest f g = f e refl
on-Ends P Q w (ok a) rest f g = g a refl

pub insert-IsKeyed :
    (id : Text) (row : DocumentRow) (rows : List (Text × DocumentRow))
    → row.document.id ≡ id
    → IsKeyed rows
    → IsKeyed (insert id row rows)
insert-IsKeyed id row rows a k = record {
  distinct = insert-Distinct id row rows k.distinct;
  ids = All-insert (λ (e : Text × DocumentRow). e.1.document.id ≡ e.0) id row rows a k.ids;
}

pub row-id :
    (w : Shelf) (id : Text) (row : DocumentRow)
    → IsOrdered w
    → lookup id w.documents ≡ some row
    → row.document.id ≡ id
row-id w id row o e =
    All-lookup (λ (e : Text × DocumentRow). e.1.document.id ≡ e.0) id row w.documents e o.keyed.ids

pub version-id :
    (w : Shelf) (id : Text) (v : Version) → IsOrdered w → lookup id w.versions ≡ some v → v.id ≡ id
version-id w id v o e = All-lookup (λ (e : Text × Version). e.1.id ≡ e.0) id v w.versions e o.filed

pub insert_version-IsOrdered :
    (v : Version) (w : Shelf) → IsOrdered w → All (λ e. e.1.id ≡ e.0) (insert v.id v w.versions)
insert_version-IsOrdered v w o =
    All-insert (λ (e : Text × Version). e.1.id ≡ e.0) v.id v w.versions refl o.filed

pub update_version-IsOrdered :
    (v : Version) (w : Shelf) → IsOrdered w → IsOrdered (update_version v w)
unfolding update_version
update_version-IsOrdered v w o = elim (Option-cases (lookup v.id w.versions)) [
  | inl e ↦ rw e (record { keyed = o.keyed; filed = o.filed })
  | inr (u, e) ↦ rw e (record { keyed = o.keyed; filed = insert_version-IsOrdered v w o })
]

-- An updated version is found, and no other is changed.
pub lookup-update_version :
    (v u : Version) (w : Shelf) (id : Text)
    → lookup v.id w.versions ≡ some u
    → lookup id (update_version v w).versions
      ≡ (if v.id == id then some v else lookup id w.versions)
unfolding update_version
lookup-update_version v u w id e = rw e (lookup-insert v.id id v w.versions)

pub load_version-lookup :
    (w : Shelf) (id : Text) {v : Version} → load_version w id ≡ ok v → lookup id w.versions ≡ some v
unfolding load_version
load_version-lookup w id {v} h = elim (Option-cases (lookup id w.versions)) [
  | inl e ↦ absurd (ground arith)
  | inr (u, e) ↦ ground arith
]

pub load_version-err : (w : Shelf) (id : Text) {e : Error} → load_version w id ≡ err e → e ≡ no_rows
unfolding load_version
load_version-err w id {e} h = elim (Option-cases (lookup id w.versions)) [
  | inl q ↦ ground arith
  | inr (u, q) ↦ absurd (ground arith)
]

version_of-err :
    (c : Knowledge) (w : Shelf) (cur : Option Text) {e : Error}
    → version_of c w cur ≡ err e
    → e ≡ no_rows
unfolding version_of
version_of-err c w none {e} h = absurd (ground arith)
version_of-err c w (some id) {e} h = elim (Result-cases (load_version w id)) [
  | inl (v, q) ↦ absurd (ground arith)
  | inr (x, q) ↦ ground (arith, load_version-err w id q)
]

collect-err :
    (c : Knowledge) (w : Shelf) (rows : List (Text × DocumentRow)) {e : Error}
    → collect c w rows ≡ err e
    → e ≡ no_rows
unfolding collect
collect-err c w [] {e} h = absurd (ground arith)
collect-err c w ((id, row) ∷ rows) {e} h =
    elim (Result-cases (version_of c w (current row.document))) [
      | inr (x, q) ↦ ground (arith, version_of-err c w (current row.document) q)
      | inl (o, q) ↦ elim (Result-cases (collect c w rows)) [
        | inr (x, p) ↦ ground (arith, collect-err c w rows p)
        | inl (rest, p) ↦ absurd (ground arith)
      ]
    ]

pub restore_projection-err :
    (c : Knowledge) (w : Shelf) {e : Error} → restore_projection c w ≡ err e → e ≡ no_rows
unfolding restore_projection
restore_projection-err c w {e} h = elim (Result-cases (collect c w (sorted w.documents))) [
  | inr (x, q) ↦ ground (arith, collect-err c w (sorted w.documents) q)
  | inl (found, q) ↦ absurd (ground arith)
]
