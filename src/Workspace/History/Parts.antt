-- ===== src/Workspace/History/Parts.antt =====
-- `ProcessNotification` and `Dispatch` as the transactions of a history, with those of other workers
-- between.
use oncall_agent.Workspace.State.{Db}
use oncall_agent.Workspace.Finish.{Settings}
use oncall_agent.Workspace.Dispatch.{Outside}
use oncall_agent.Workspace.History.{Reach}

module _ (g : Settings) (x : Outside) where
  -- What others commit is a history.
  abbrev pub Commits : (Db → Db) → Type 0
  Commits f = (a : Db) → Reach g x a (f a)
