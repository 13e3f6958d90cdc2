-- ===== src/Store.antt =====
-- src/agentit/portal/store: the tables behind the pipeline, one module per table. A table is a list
-- of its rows in the order of their creation, and a statement of SQL is a function on it.
pub mod Locks
pub mod Webhooks
pub mod Deliveries
pub mod Events
pub mod Jobs
pub mod Skills
pub mod Feedback
