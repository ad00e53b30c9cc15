-- ===== src/Execution/Transitions.antt =====
-- How one execution evolves under the handlers: the relation between two states of the service,
-- what every write does to it, and its consequences over a run of calls.
pub mod Relation
pub mod Writes
pub mod Histories
