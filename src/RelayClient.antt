-- ===== src/RelayClient.antt =====
-- `RelayStream` of ziot_rtp_bridge.py, the RTSP client of a relay. Texts are bytes.
pub mod Media
pub mod Sdp
pub mod Auth
pub mod Open
mod Tests
