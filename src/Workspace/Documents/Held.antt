-- ===== src/Workspace/Documents/Held.antt =====
-- The chunks of the projection compared with the tables.
use oncall_agent.Prelude.{
  In, false, Option, none, some, List, [], ◌∷◌, ◌++◌, Text, beq_refl, lookup, ◌==◌, text_eq,
  text_beq_iff, ◌≡◌, refl, arith, ◌⊎◌, inl, inr, ap, ◌∙◌, sym, subst, Option-cases, keys, has,
  Distinct, lookup-eq-none_iff, Bool-cases,
}
use oncall_agent.Retrieval.Versions.{VersionChunk, ActiveVersion, Rag, restore_chunks}
use oncall_agent.Retrieval.Versions.Restored.{Stands, doc_of, restore_chunks-Stands}
use oncall_agent.Workspace.State.{ok, Result-cases}
use oncall_agent.Workspace.Documents.{
  Document, Chunk, Version, DocumentRow, Shelf, Knowledge, current, if_served, version_of,
  load_version, project, projected, add_served, collect, sorted,
}
use oncall_agent.Workspace.Documents.Sorted.{IsKeyed, lookup-sorted, sorted-IsKeyed}

-- The document is not deleted and names the version, which is active and of the service's space.
pub record Shows (c : Knowledge) (vs : List (Text × Version)) (d : Document) (v : Version)
    : Type 0 where
  pub id : Text
  pub named : current d ≡ some id
  pub stored : lookup id vs ≡ some v
  pub served : if_served c v ≡ some v

-- A chunk of the version that a document of the tables shows.
pub record Belongs (c : Knowledge) (vs : List (Text × Version)) (rows : List (Text × DocumentRow))
    (x : VersionChunk) : Type 0 where
  pub id : Text
  pub row : DocumentRow
  pub stored : lookup id rows ≡ some row
  pub version : Version
  pub shown : Shows c vs row.document version
  pub chunk : Chunk
  pub given : In chunk version.chunks
  pub projected : x ≡ project row.document version chunk

-- Under the id of every chunk that a document of the tables shows, the projection and the keyword index
-- have a chunk that one shows.
pub record Holds (c : Knowledge) (w : Shelf) (x : VersionChunk) : Type 0 where
  pub chunk : VersionChunk
  pub belongs : Belongs c w.versions w.documents chunk
  pub id_eq : chunk.id ≡ x.id
  pub found : lookup x.id w.rag.chunks ≡ some chunk
  pub indexed : lookup x.id w.rag.bm.docs ≡ some (doc_of c.backend.unicode chunk)

abbrev pub HoldsAll : Knowledge → Shelf → Type 0
HoldsAll c w = (x : VersionChunk) → Belongs c w.versions w.documents x → Holds c w x

In-left : {A : Type 0} (x : A) (xs ys : List A) → In x xs → In x (xs ++ ys)
In-left x [] ys h = absurd h
In-left x (y ∷ xs) ys (inl h) = inl h
In-left x (y ∷ xs) ys (inr h) = inr (In-left x xs ys h)

In-right : {A : Type 0} (x : A) (xs ys : List A) → In x ys → In x (xs ++ ys)
In-right x [] ys h = h
In-right x (y ∷ xs) ys h = inr (In-right x xs ys h)

In-append : {A : Type 0} (x : A) (xs ys : List A) → In x (xs ++ ys) → In x xs ⊎ In x ys
In-append x [] ys h = inr h
In-append x (y ∷ xs) ys (inl h) = inl (inl h)
In-append x (y ∷ xs) ys (inr h) = elim (In-append x xs ys h) [ inl k ↦ inl (inr k) | inr k ↦ inr k ]

In-projected :
    (d : Document) (v : Version) (k : Chunk) (ks : List Chunk)
    → In k ks
    → In (project d v k) (projected d v ks)
unfolding projected
In-projected d v k [] h = absurd h
In-projected d v k (j ∷ js) (inl h) = inl (ap (project d v) h)
In-projected d v k (j ∷ js) (inr h) = inr (In-projected d v k js h)

of_projected :
    (d : Document) (v : Version) (x : VersionChunk) (ks : List Chunk)
    → In x (projected d v ks)
    → (k : Chunk) × In k ks × (x ≡ project d v k)
unfolding projected
of_projected d v x [] h = absurd h
of_projected d v x (j ∷ js) (inl h) = (j, inl refl, sym h)
of_projected d v x (j ∷ js) (inr h) = let (k, i, e) = of_projected d v x js h in (k, inr i, e)

version_of-Shows :
    (c : Knowledge) (w : Shelf) (d : Document) (cur : Option Text) (v : Version)
    → current d ≡ cur
    → version_of c w cur ≡ ok (some v)
    → Shows c w.versions d v
unfolding version_of load_version if_served
version_of-Shows c w d none v e h = absurd (ground arith)
version_of-Shows c w d (some id) v e h = elim (Option-cases (lookup id w.versions)) [
  | inl q ↦ absurd (ground arith)
  | inr (u, q) ↦
      let same : u ≡ v = ground arith in
      record { id = id; named = e; stored = rw q (ap some same); served = ground arith }
]

Shows-version_of :
    (c : Knowledge) (w : Shelf) (d : Document) (v : Version)
    → Shows c w.versions d v
    → version_of c w (current d) ≡ ok (some v)
unfolding version_of load_version
Shows-version_of c w d v s = rw (s.named, s.stored) (ap ok s.served)

Belongs-later :
    (c : Knowledge) (w : Shelf) (id : Text) (row : DocumentRow) (rows : List (Text × DocumentRow))
    (x : VersionChunk)
    → has id (keys rows) ≡ false
    → Belongs c w.versions rows x
    → Belongs c w.versions ((id, row) ∷ rows) x
Belongs-later c w id row rows x n b = record {
  id = b.id;
  row = b.row;
  stored = ground (arith, b.stored, text_beq_iff id b.id, (lookup-eq-none_iff id rows).1 n);
  version = b.version;
  shown = b.shown;
  chunk = b.chunk;
  given = b.given;
  projected = b.projected;
}

add_served-later :
    (d : Document) (o : Option Version) (rest : List ActiveVersion × List VersionChunk)
    (x : VersionChunk)
    → In x rest.1
    → In x (add_served d o rest).1
unfolding add_served
add_served-later d none rest x h = h
add_served-later d (some v) rest x h = In-right x (projected d v v.chunks) rest.1 h

add_served-first :
    (d : Document) (v : Version) (rest : List ActiveVersion × List VersionChunk) (k : Chunk)
    → In k v.chunks
    → In (project d v k) (add_served d (some v) rest).1
unfolding add_served
add_served-first d v rest k h =
    In-left (project d v k) (projected d v v.chunks) rest.1 (In-projected d v k v.chunks h)

-- A chunk that the tables show is collected.
collect-In :
    (c : Knowledge) (w : Shelf) (rows : List (Text × DocumentRow))
    (found : List ActiveVersion × List VersionChunk) (x : VersionChunk)
    → collect c w rows ≡ ok found
    → Belongs c w.versions rows x
    → In x found.1
unfolding collect
collect-In c w [] found x h b = absurd (ground (arith, b.stored))
collect-In c w ((id, row) ∷ rows) found x h b =
    elim (Result-cases (version_of c w (current row.document))) [
      | inr (y, e) ↦ absurd (ground arith)
      | inl (o, e) ↦ elim (Result-cases (collect c w rows)) [
        | inr (y, q) ↦ absurd (ground arith)
        | inl (rest, q) ↦
            let made : add_served row.document o rest ≡ found = ground arith in
            subst (λ z. In x z.1) made
              (elim (Bool-cases (id == b.id)) [
                | inl s ↦
                    let same : b.row ≡ row = ground (arith, b.stored) in
                    let shows : Shows c w.versions row.document b.version =
                      subst (λ z. Shows c w.versions z.document b.version) same b.shown in
                    let told = Shows-version_of c w row.document b.version shows in
                    let is : some b.version ≡ o = ground (arith, told, e) in
                    subst (λ z. In x (add_served row.document z rest).1) is
                      (subst (λ z. In z (add_served row.document (some b.version) rest).1)
                        (ap (λ z. project z.document b.version b.chunk) (sym same)
                          ∙ sym b.projected)
                        (add_served-first row.document b.version rest b.chunk b.given))
                | inr s ↦
                    let later : Belongs c w.versions rows x = record {
                      id = b.id;
                      row = b.row;
                      stored = ground (arith, b.stored);
                      version = b.version;
                      shown = b.shown;
                      chunk = b.chunk;
                      given = b.given;
                      projected = b.projected;
                    } in
                    add_served-later row.document o rest x (collect-In c w rows rest x q later)
              ])
      ]
    ]

add_served-Belongs :
    (c : Knowledge) (w : Shelf) (id : Text) (row : DocumentRow) (rows : List (Text × DocumentRow))
    (o : Option Version) (rest : List ActiveVersion × List VersionChunk) (x : VersionChunk)
    → version_of c w (current row.document) ≡ ok o
    → has id (keys rows) ≡ false
    → (In x rest.1 → Belongs c w.versions rows x)
    → In x (add_served row.document o rest).1
    → Belongs c w.versions ((id, row) ∷ rows) x
unfolding add_served
add_served-Belongs c w id row rows none rest x e n f h = Belongs-later c w id row rows x n (f h)
add_served-Belongs c w id row rows (some v) rest x e n f h =
    elim (In-append x (projected row.document v v.chunks) rest.1 h) [
      | inl i ↦
          let (k, given, is) = of_projected row.document v x v.chunks i in
          record {
            id = id;
            row = row;
            stored = rw (beq_refl id) refl;
            version = v;
            shown = version_of-Shows c w row.document (current row.document) v refl e;
            chunk = k;
            given = given;
            projected = is;
          }
      | inr i ↦ Belongs-later c w id row rows x n (f i)
    ]

-- What is collected is shown by the tables.
collect-Belongs :
    (c : Knowledge) (w : Shelf) (rows : List (Text × DocumentRow))
    (found : List ActiveVersion × List VersionChunk) (x : VersionChunk)
    → Distinct (keys rows)
    → collect c w rows ≡ ok found
    → In x found.1
    → Belongs c w.versions rows x
unfolding collect
collect-Belongs c w [] found x k h i =
    let nothing : ([], []) ≡ found = ground arith in absurd (subst (λ z. In x z.1) (sym nothing) i)
collect-Belongs c w ((id, row) ∷ rows) found x k h i =
    elim (Result-cases (version_of c w (current row.document))) [
      | inr (y, e) ↦ absurd (ground arith)
      | inl (o, e) ↦ elim (Result-cases (collect c w rows)) [
        | inr (y, q) ↦ absurd (ground arith)
        | inl (rest, q) ↦
            let made : add_served row.document o rest ≡ found = ground arith in
            add_served-Belongs c w id row rows o rest x e k.0
              (collect-Belongs c w rows rest x k.1 q) (subst (λ z. In x z.1) (sym made) i)
      ]
    ]

Belongs-of_rows :
    (c : Knowledge) (w : Shelf) (rows rows' : List (Text × DocumentRow)) (x : VersionChunk)
    → ((id : Text) → lookup id rows' ≡ lookup id rows)
    → Belongs c w.versions rows x
    → Belongs c w.versions rows' x
Belongs-of_rows c w rows rows' x f b = record {
  id = b.id;
  row = b.row;
  stored = f b.id ∙ b.stored;
  version = b.version;
  shown = b.shown;
  chunk = b.chunk;
  given = b.given;
  projected = b.projected;
}

-- After the collected chunks are restored, whatever they are restored into.
pub collect-Stands :
    (c : Knowledge) (w : Shelf) (found : List ActiveVersion × List VersionChunk) (r : Rag)
    → IsKeyed w.documents
    → collect c w (sorted w.documents) ≡ ok found
    → (x : VersionChunk) → Belongs c w.versions w.documents x
    → (s : Stands c.backend.unicode found.1 (restore_chunks c.backend.unicode found.1 r) x.id)
      × Belongs c w.versions w.documents s.chunk
collect-Stands c w found r k e x b =
    let rows = sorted w.documents in
    let there : (id : Text) → lookup id rows ≡ lookup id w.documents =
      λ id. lookup-sorted w.documents id k.distinct in
    let given = collect-In c w rows found x e (Belongs-of_rows c w w.documents rows x there b) in
    let s = restore_chunks-Stands c.backend.unicode found.1 r x given in
    (
      s,
      Belongs-of_rows c w rows w.documents s.chunk (λ id. sym (there id))
          (collect-Belongs c w rows found s.chunk (sorted-IsKeyed w.documents k).distinct e
            s.given),
    )
