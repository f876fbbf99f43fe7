-- ===== src/Retrieval/Versions/Restored.antt =====
-- What `RestoreChunks` puts into the projection.
use oncall_agent.Prelude.{
  In, true, Option, none, some, List, [], ◌∷◌, Text, if◌then◌else◌, ◌==◌, text_eq, text_beq_iff,
  beq_refl, lookup, insert, ◌≡◌, refl, arith, ap, ◌∙◌, ◌⊎◌, inl, inr, Bool-cases, lookup-insert,
}
use oncall_agent.Retrieval.Anchor.{Unicode}
use oncall_agent.Retrieval.Index.{Doc, Index, upsert, put_doc, new_doc, retract}
use oncall_agent.Retrieval.Versions.{VersionChunk, Rag, restore_chunks}

retract-docs : (o : Option Doc) (b : Index) → (retract o b).docs ≡ b.docs
unfolding retract
retract-docs none b = refl
retract-docs (some d) b = refl

abbrev pub doc_of : Unicode → VersionChunk → Doc
doc_of u c = new_doc u c.title c.title c.snippet c.source

-- One of the chunks stands under the id, in the projection and in the keyword index.
pub record Stands (u : Unicode) (cs : List VersionChunk) (r : Rag) (id : Text) : Type 0 where
  pub chunk : VersionChunk
  pub given : In chunk cs
  pub id_eq : chunk.id ≡ id
  pub found : lookup id r.chunks ≡ some chunk
  pub indexed : lookup id r.bm.docs ≡ some (doc_of u chunk)

record Stays (r r' : Rag) (id : Text) : Type 0 where
  chunks : lookup id r'.chunks ≡ lookup id r.chunks
  docs : lookup id r'.bm.docs ≡ lookup id r.bm.docs

Stands-later :
    (u : Unicode) (c : VersionChunk) (cs : List VersionChunk) (r : Rag) (id : Text)
    → Stands u cs r id
    → Stands u (c ∷ cs) r id
Stands-later u c cs r id s = record {
  chunk = s.chunk;
  given = inr s.given;
  id_eq = s.id_eq;
  found = s.found;
  indexed = s.indexed;
}

-- After one chunk more.
abbrev with_chunk : Unicode → VersionChunk → Rag → Rag
with_chunk u c r = record r {
  chunks = insert c.id c r.chunks;
  bm = upsert u c.id c.title c.title c.snippet c.source r.bm;
}

docs-with_chunk :
    (u : Unicode) (c : VersionChunk) (r : Rag) (id : Text)
    → lookup id (with_chunk u c r).bm.docs
      ≡ (if c.id == id then some (doc_of u c) else lookup id r.bm.docs)
unfolding upsert put_doc
docs-with_chunk u c r id =
    lookup-insert c.id id (doc_of u c) _
    ∙ ap (λ m. if c.id == id then some (doc_of u c) else lookup id m) (retract-docs _ r.bm)

-- The last chunk of an id stands, and another id's entry stays.
restore_chunks-cases :
    (u : Unicode) (cs : List VersionChunk) (r : Rag) (id : Text)
    → Stands u cs (restore_chunks u cs r) id ⊎ Stays r (restore_chunks u cs r) id
unfolding restore_chunks
restore_chunks-cases u [] r id = inr (record { chunks = refl; docs = refl })
restore_chunks-cases u (c ∷ cs) r id = elim (restore_chunks-cases u cs (with_chunk u c r) id) [
  | inl s ↦ inl (Stands-later u c cs _ id s)
  | inr s ↦ elim (Bool-cases (c.id == id)) [
    | inl e ↦ inl (record {
      chunk = c;
      given = inl refl;
      id_eq = ground (arith, text_beq_iff c.id id);
      found = s.chunks ∙ lookup-insert c.id id c r.chunks ∙ rw e refl;
      indexed = s.docs ∙ docs-with_chunk u c r id ∙ rw e refl;
    })
    | inr e ↦ inr (record {
      chunks = s.chunks ∙ lookup-insert c.id id c r.chunks ∙ rw e refl;
      docs = s.docs ∙ docs-with_chunk u c r id ∙ rw e refl;
    })
  ]
]

-- A chunk that is given stands, unless a later one has its id, which then stands.
pub restore_chunks-Stands :
    (u : Unicode) (cs : List VersionChunk) (r : Rag) (x : VersionChunk)
    → In x cs
    → Stands u cs (restore_chunks u cs r) x.id
unfolding restore_chunks
restore_chunks-Stands u [] r x h = absurd h
restore_chunks-Stands u (c ∷ cs) r x (inr h) =
    Stands-later u c cs _ x.id (restore_chunks-Stands u cs (with_chunk u c r) x h)
restore_chunks-Stands u (c ∷ cs) r x (inl h) =
    elim (restore_chunks-cases u cs (with_chunk u c r) x.id) [
      | inl s ↦ Stands-later u c cs _ x.id s
      | inr s ↦
          let e : (c.id == x.id) ≡ true = rw h (beq_refl x.id) in
          record {
            chunk = c;
            given = inl refl;
            id_eq = ap (λ z. z.id) h;
            found = s.chunks ∙ lookup-insert c.id x.id c r.chunks ∙ rw e refl;
            indexed = s.docs ∙ docs-with_chunk u c r x.id ∙ rw e refl;
          }
    ]
