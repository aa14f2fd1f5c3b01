-- ===== src/Mission.antt =====
-- A mission's business state: its lifecycle, the service that writes it, and the tick rules.
pub mod Lifecycle
pub mod Service
pub mod Policy
