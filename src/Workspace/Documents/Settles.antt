-- ===== src/Workspace/Documents/Settles.antt =====
-- `dispatchCleanup` as a whole, and a deletion followed by its cleanup.
use oncall_agent.Prelude.{Text, text_eq, ◌≡◌}
use oncall_agent.Workspace.Documents.{Shelf, Knowledge}
use oncall_agent.Workspace.Documents.Mirrored.{shown}
use oncall_agent.Workspace.Documents.Ordered.{IsOrdered}

-- Writing another index status changes no version that is served.
record Relabels (c : Knowledge) (w w' : Shelf) : Type 0 where
  ordered : IsOrdered w'
  versions : w'.versions ≡ w.versions
  rag : w'.rag ≡ w.rag
  shown : (j : Text) → shown c w' j ≡ shown c w j
