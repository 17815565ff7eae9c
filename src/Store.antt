-- ===== src/Store.antt =====
-- internal/store: the Postgres store.
pub mod Schema
pub mod Statements
pub mod Driver
pub mod Postgres
pub mod Interface
pub mod Rely
pub mod Guarantee
pub mod Ordered
pub mod Valid
pub mod Accept
pub mod Evolves
pub mod Rows
pub mod Lifecycle
pub mod Distinct
pub mod Marked
pub mod Claimed
pub mod Sound
pub mod Outbox
pub mod Stages
pub mod Accepted
pub mod Fresh
pub mod Yields
pub mod Counts
pub mod Open
pub mod Reads
pub mod Process
pub mod Reach
pub mod Machine
pub mod Follows
pub mod Invariant
pub mod Once
pub mod Recorded
