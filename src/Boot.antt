-- ===== src/Boot.antt =====
-- How `main` of ziot_rtp_bridge.py gets its cameras: `bring_up`, `retry_boot` and the first device list.
pub mod Roster
pub mod Retry
mod Tests
