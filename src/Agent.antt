-- ===== src/Agent.antt =====
-- internal/agent: conversations, the ReAct loop and its citations, and the tools that it may call.
mod Tests
pub mod Evidence
pub mod Conversations
pub mod Loop
