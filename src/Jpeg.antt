-- ===== src/Jpeg.antt =====
-- JPEG over RTP (RFC 2435) as ziot_rtp_bridge.py receives it: the tables, the header that it puts in
-- front of the scan data, and the reassembler of fragments.
pub mod Tables
pub mod Header
pub mod Scan
pub mod Reassembler
mod Tests
