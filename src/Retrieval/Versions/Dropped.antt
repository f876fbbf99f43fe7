-- ===== src/Retrieval/Versions/Dropped.antt =====
-- What `DeleteVersionWithContext` takes out of the projection.
use oncall_agent.Prelude.{
  false, none, some, List, [], ◌∷◌, Text, if◌then◌else◌, ◌==◌, text_eq, text_beq_iff, lookup,
  delete, keys, has, Distinct, ◌≡◌, refl, arith, lookup-delete,
}
use oncall_agent.Retrieval.Index.{remove}
use oncall_agent.Retrieval.Versions.{VersionChunk, Rag, of_version, drop_chunks, delete_version}

-- The fields that say what is active are as they were.
pub record Drops (r r' : Rag) : Type 0 where
  pub active : r'.active ≡ r.active
  pub versioned : r'.versioned ≡ r.versioned

drop_chunks-Drops : (m : List (Text × VersionChunk)) (r : Rag) → Drops r (drop_chunks m r)
unfolding drop_chunks
drop_chunks-Drops [] r = record { active = refl; versioned = refl }
drop_chunks-Drops ((id, c) ∷ m) r =
    let next : Rag = record r { bm = remove id r.bm; chunks = delete id r.chunks } in
    let rest = drop_chunks-Drops m next in
    record { active = rest.active; versioned = rest.versioned }

drop_chunks-lookup :
    (m : List (Text × VersionChunk)) (r : Rag) (k : Text)
    → lookup k (drop_chunks m r).chunks ≡ (if has k (keys m) then none else lookup k r.chunks)
unfolding drop_chunks
drop_chunks-lookup [] r k = refl
drop_chunks-lookup ((id, c) ∷ m) r k =
    let next : Rag = record r { bm = remove id r.bm; chunks = delete id r.chunks } in
    ground (arith, drop_chunks-lookup m next k, lookup-delete id k r.chunks, text_beq_iff id k)

of_version-absent :
    (version : Text) (m : List (Text × VersionChunk)) (k : Text)
    → has k (keys m) ≡ false
    → has k (keys (of_version version m)) ≡ false
of_version-absent version [] k h = refl
of_version-absent version ((id, c) ∷ m) k h = ground (arith, of_version-absent version m k)

-- With distinct keys, a chunk is taken exactly where it is of the version.
of_version-has :
    (version : Text) (m : List (Text × VersionChunk)) (k : Text) (c : VersionChunk)
    → Distinct (keys m)
    → lookup k m ≡ some c
    → has k (keys (of_version version m)) ≡ (c.version_id == version)
of_version-has version [] k c d h = cc
of_version-has version ((id, u) ∷ m) k c d h =
    ground (
      arith,
      of_version-has version m k c d.1,
      of_version-absent version m k,
      text_beq_iff id k,
      d.0,
    )

pub delete_version-Drops : (version : Text) (r : Rag) → Drops r (delete_version version r)
unfolding delete_version
delete_version-Drops version r = drop_chunks-Drops (of_version version r.chunks) r

pub delete_version-none :
    (version k : Text) (r : Rag)
    → lookup k r.chunks ≡ none
    → lookup k (delete_version version r).chunks ≡ none
unfolding delete_version
delete_version-none version k r h =
    ground (arith, h, drop_chunks-lookup (of_version version r.chunks) r k)

pub delete_version-lookup :
    (version k : Text) (r : Rag) (c : VersionChunk)
    → Distinct (keys r.chunks)
    → lookup k r.chunks ≡ some c
    → lookup k (delete_version version r).chunks
      ≡ (if c.version_id == version then none else some c)
unfolding delete_version
delete_version-lookup version k r c d h = ground (
  arith,
  h,
  drop_chunks-lookup (of_version version r.chunks) r k,
  of_version-has version r.chunks k c d h,
)
