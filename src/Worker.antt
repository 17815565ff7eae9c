-- ===== src/Worker.antt =====
-- cmd/worker: the Kafka consumer.
pub mod LogMsg
pub mod JobErrors
pub mod Downstream
pub mod Record
pub mod Partition
pub mod Postgres
pub mod Settles
pub mod Duplicates
pub mod Loop
pub mod Attempt
pub mod Changes
pub mod Calm
pub mod Retries
