-- ===== src/Execution.antt =====
-- services/execution-service: the life of a command or function execution, from its creation
-- through dispatch and callback to a final status, and the operations over whole fleets.
pub mod Status
pub mod Model
pub mod World
pub mod Notices
pub mod Guardrails
pub mod Create
pub mod Dispatch
pub mod Callback
pub mod Access
pub mod Timeouts
pub mod Triggers
pub mod Functions
pub mod Runbook
pub mod Rings
pub mod Attempts
pub mod Rollout
pub mod Deploy
pub mod Drift
pub mod Calls
pub mod Respects
pub mod Transitions
pub mod Limits
pub mod Soundness
