-- ===== src/Camera.antt =====
-- `class ZiotCamera` of ziot_rtp_bridge.py: one camera's transport, kept up by the recovery loop.
pub mod State
pub mod Stun
pub mod Attempt
pub mod Recovery
pub mod Direct
pub mod Punch
mod Tests
