-- ===== src/Daemon.antt =====
-- backend/app/services/mission_daemon.py: the daemon that runs missions.
pub mod State
pub mod Control
pub mod Tick
