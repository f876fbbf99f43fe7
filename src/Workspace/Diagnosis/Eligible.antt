-- ===== src/Workspace/Diagnosis/Eligible.antt =====
-- What it means that a hit is eligible.
use oncall_agent.Prelude.{
  true, none, some, [], Text, codes, ◌==◌, text_eq, text_beq_iff, lookup, trim_space, contains,
  ◌++◌, ◌≡◌, refl, arith, Bool-cases, Option-cases, inl, inr, ◌⊎◌,
}
use oncall_agent.Workspace.State.{ok}
use oncall_agent.Workspace.Admission.{Incident}
use oncall_agent.Workspace.Documents.{Document, Chunk, Shelf, load_document}
use oncall_agent.Workspace.Diagnosis.{Hit, is_served, applies, anchored_in, is_qualified, qualifies}

-- The hit's chunk is in the tables; its document is live and names the hit's version, which is the
-- chunk's; the chunk is of the embedding space; the document's environment is unknown, all, or the
-- incident's; the chunk's title and text have the alert's name; and the hit is no incident's report.
pub record IsEligible (to_lower : Text → Text) (space : Text) (w : Shelf) (inc : Incident) (h : Hit)
    (c : Chunk) : Type 0 where
  pub chunk : lookup h.chunk_id w.chunks ≡ some c
  pub document : Document
  pub found : load_document w h.doc_id ≡ ok document
  pub live : document.deleted_at ≡ none
  pub active : document.active_version_id ≡ some h.version_id
  pub version : c.version_id ≡ h.version_id
  pub space_id : c.space_id ≡ space
  pub environment :
      (document.environment ≡ codes "unknown")
      ⊎ (document.environment ≡ codes "all")
      ⊎ (document.environment ≡ inc.environment)
  pub named : to_lower (trim_space inc.name) ≡ [] → ⊥
  pub anchored :
      contains (to_lower (c.title ++ codes "\n" ++ c.snippet)) (to_lower (trim_space inc.name))
      ≡ true
  pub source : h.source ≡ codes "incident" → ⊥

served-facts :
    (space : Text) (h : Hit) (c : Chunk) (d : Document)
    → is_served space h c d ≡ true
    → (d.deleted_at ≡ none)
      × (d.active_version_id ≡ some h.version_id)
      × (c.version_id ≡ h.version_id)
      × (c.space_id ≡ space)
unfolding is_served
served-facts space h c d e = elim (Option-cases d.deleted_at) [
  | inr (t, q) ↦ absurd (ground arith)
  | inl q ↦ elim (Option-cases d.active_version_id) [
    | inl p ↦ absurd (ground arith)
    | inr (v, p) ↦ (
      q,
      ground (arith, e, p, text_beq_iff v h.version_id),
      ground (arith, e, text_beq_iff c.version_id h.version_id),
      ground (arith, e, text_beq_iff c.space_id space),
    )
  ]
]

applies-cases :
    (inc : Incident) (d : Document)
    → applies inc d ≡ true
    → (d.environment ≡ codes "unknown")
      ⊎ (d.environment ≡ codes "all")
      ⊎ (d.environment ≡ inc.environment)
unfolding applies
applies-cases inc d h = elim (Bool-cases (d.environment == codes "unknown")) [
  | inl e ↦ inl ((text_beq_iff d.environment (codes "unknown")).0 e)
  | inr n ↦ elim (Bool-cases (d.environment == codes "all")) [
    | inl e ↦ inr (inl ((text_beq_iff d.environment (codes "all")).0 e))
    | inr m ↦ inr (inr ((text_beq_iff d.environment inc.environment).0 (ground arith)))
  ]
]

qualified-IsEligible :
    (to_lower : Text → Text) (space : Text) (w : Shelf) (inc : Incident) (h : Hit) (c : Chunk)
    (d : Document)
    → lookup h.chunk_id w.chunks ≡ some c
    → load_document w h.doc_id ≡ ok d
    → (h.source ≡ codes "incident" → ⊥)
    → is_qualified to_lower space inc h c d ≡ true
    → IsEligible to_lower space w inc h c
unfolding is_qualified anchored_in
qualified-IsEligible to_lower space w inc h c d e f s q =
    let (live, active, version, space_id) = served-facts space h c d (ground arith) in
    let anchor = to_lower (trim_space inc.name) in
    record {
      chunk = e;
      document = d;
      found = f;
      live = live;
      active = active;
      version = version;
      space_id = space_id;
      environment = applies-cases inc d (ground arith);
      named = λ n. ground (arith, q, n, text_beq_iff anchor []);
      anchored = ground (arith, q);
      source = s;
    }

-- A hit that the code takes for eligible has a chunk of the live version of its document, in the
-- embedding space and an environment that applies, with the name of the alert in it.
pub qualifies-IsEligible :
    (to_lower : Text → Text) (space : Text) (w : Shelf) (inc : Incident) (h : Hit) (c : Chunk)
    → qualifies to_lower space w inc h ≡ ok (c, true)
    → IsEligible to_lower space w inc h c
unfolding qualifies load_document
qualifies-IsEligible to_lower space w inc h c q = elim (Option-cases (lookup h.chunk_id w.chunks)) [
  | inl e ↦ absurd (ground arith)
  | inr (c', e) ↦ elim (Option-cases (lookup h.doc_id w.documents)) [
    | inl f ↦ absurd (ground arith)
    | inr (row, f) ↦
        let same : c' ≡ c = ground arith in
        qualified-IsEligible to_lower space w inc h c row.document (rw (← same) e)
          (unfold load_document in rw f refl)
          (λ s. ground (arith, q, text_beq_iff h.source (codes "incident"))) (ground arith)
  ]
]
