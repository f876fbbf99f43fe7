-- ===== src/Workspace/Coherence.antt =====
-- What the tables of runs and events keep: the agreement of a row's columns with its run, and the
-- numbering of a run's events.
pub mod Numbering
pub mod Growth
pub mod Attempts
pub mod Restart
pub mod Requeued
pub mod Deliveries
pub mod Additions
use oncall_agent.Prelude.{
  ℕ, suc, ◌+◌, ◌≤◌, Bool, true, false, Option, none, some, List, [], ◌∷◌, ◌++◌, Text, ◌≡◌, refl,
  arith, lookup, insert, All, All-insert, All-lookup, ◌==◌, text_eq, Option-cases, inl, inr,
  if◌then◌else◌,
}
use oncall_agent.Workspace.State.{Run, RunRow, Event, Db, Stage, Kind, ApiError}
use oncall_agent.Workspace.Tables.{Env, save_run, add_event}

pub record Agrees (e : Text × RunRow) : Type 0 where
  pub id : e.1.run.id ≡ e.0
  pub status : e.1.status ≡ e.1.run.status
  pub attempt : e.1.attempt ≡ e.1.run.current_attempt
  pub revision : e.1.revision ≡ e.1.run.revision
