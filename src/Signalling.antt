-- ===== src/Signalling.antt =====
-- The camera's signalling protocol (ziot_fake_cloud.py): frames, and the splitter of the stream.
pub mod Frame
pub mod Decode
pub mod Split
pub mod Report
mod Tests
