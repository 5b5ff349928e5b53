-- ===== src/Tests.antt =====
-- Each theorem at work on a small state.
mod PagePools
mod Buffers
mod Copies
mod Queues
mod Tables
mod Works
mod Devices
mod Stations
mod Frames
mod Transfers
mod UsbDevices
