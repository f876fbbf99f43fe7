-- ===== src/Workspace.antt =====
-- internal/workspace: the durable facts of incidents and diagnosis runs, and the service that
-- claims, executes, finishes, recovers and announces runs.
mod Tests
pub mod State
pub mod Tables
pub mod Claims
pub mod Finish
pub mod Recovery
pub mod Notify
pub mod Dispatch
pub mod Coherence
pub mod History
pub mod Admission
pub mod Documents
pub mod Diagnosis
pub mod Graphs
pub mod Summary
pub mod Topology
