-- ===== src/Ai.antt =====
-- apps/ai-orchestrator: the underwriting graph, the semantic cache, and the document chunks that
-- both search. The models, the embeddings and PostgreSQL are parameters.
pub mod Underwriting
pub mod Runs
pub mod Cosine
pub mod Cache
pub mod Hits
pub mod Best
pub mod Vectors
pub mod Nearest
pub mod Ingestion
pub mod Tracing
pub mod Queries
pub mod Snapshot
pub mod Api
mod Sorting
mod ChunkExamples
mod Examples
mod SnapshotExamples
