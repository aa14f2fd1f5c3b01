-- ===== src/Tests.antt =====
-- Runs of the models on concrete inputs, and the theorems applied to them.
pub mod Samples
pub mod Approvals
pub mod Missions
pub mod Daemons
pub mod Queues
pub mod Streams
pub mod Routes
pub mod Contracts
pub mod Orders
pub mod Replies
pub mod Compressions
pub mod Dispatches
pub mod Tunes
pub mod Rates
