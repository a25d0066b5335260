-- ===== src/Streamer.antt =====
-- app/src/main/cpp/camera2_gst_streamer.cpp: the native side of the RTSP streamer.
pub mod Session
pub mod Video
pub mod Audio
pub mod Buffers
pub mod Aac
pub mod Detect
pub mod Media
pub mod Bus
pub mod Controls
pub mod Play
pub mod Feedback
pub mod Dump
pub mod Server
pub mod Stop
pub mod Reports
pub mod Ledger
pub mod Lifetime
pub mod Threads
