-- ===== src/Mac.antt =====
-- mac80211.c: the station side of the wireless glue. Frames and element lists are lists of bytes.
pub mod Bytes
pub mod Elements
pub mod FrameControl
pub mod Runtime
pub mod Select
pub mod Rates
pub mod Transmit
pub mod Probe
pub mod Connect
pub mod Station
pub mod Data
pub mod Amsdu
pub mod Scan
pub mod Receive
pub mod Register
pub mod Beacon
