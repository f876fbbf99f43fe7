-- ===== src/Retrieval.antt =====
-- internal/rag: the lexical test that a hit must pass, the keyword index, the chunks, the projection of
-- the versions and the reranking.
mod Tests
pub mod Anchor
pub mod Index
pub mod Chunks
pub mod Rerank
pub mod Versions
