-- ===== src/Cloud.antt =====
-- What the bridge reads of the device list (ziot_rtp_bridge.py): firmware versions, the state flags of a
-- row, and the relay's URLs.
pub mod Client
pub mod Number
pub mod Static
pub mod Version
pub mod Row
mod Tests
