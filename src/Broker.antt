-- ===== src/Broker.antt =====
-- The broker's signalling side, of ziot_fake_cloud.py: what it sends to a camera, the state that it keeps of
-- one, and when it does which.
pub mod Answers
pub mod State
pub mod Chain
pub mod Beat
pub mod Api
pub mod Handler
pub mod Play
pub mod Timing
pub mod Stun
pub mod Sweep
pub mod Dns
pub mod Token
pub mod Registry
pub mod Routes
mod Tests
