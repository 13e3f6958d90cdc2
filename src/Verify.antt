-- ===== src/Verify.antt =====
-- The check of a delivery's findings on the next assessment, in src/agentit/portal/delivery.py:
-- what still stands is fixed again, a bounded number of times, and then escalated to a person.
pub mod Escalation
pub mod Open
pub mod Correlate
pub mod Attribution
pub mod Dispatch
pub mod Redispatch
pub mod Recheck
pub mod Stops
pub mod Kept
pub mod Settled
pub mod Once
pub mod Failures
pub mod NextAction
use agent_it.Base.{ℕ, ◌+◌, String, Bool, Option, none, List}
use agent_it.Store.Deliveries.{Deliveries, create_delivery, update_delivery}
use agent_it.Store.Events.{Events, log_event}
use agent_it.Store.Locks.{Locks}
use agent_it.Store.Skills.{Outcomes}

-- The tables that the check reads and writes. `fresh` is the next identifier.
pub record Db : Type 0 where
  pub fresh : ℕ
  pub deliveries : Deliveries
  pub events : Events
  pub skills : Outcomes
  pub locks : Locks

-- `_log_finding_resolution_outcome`: it returns the identifier of the event.
unfoldable pub log_outcome : String → String → String → String → Db → ℕ × Db
unfolding log_event
log_outcome app action severity summary db = (
  db.fresh,
  record db {
    fresh = db.fresh + 1;
    events = log_event db.fresh action app severity summary none db.events;
  },
)
