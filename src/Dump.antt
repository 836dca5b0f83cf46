-- ===== src/Dump.antt =====
-- The JTAG sniffer, xvcSrv/src/jtagDump.cc and jtagDump.h: shift registers, the TAP state machine
-- and the walk through bit buffers.
pub mod Register
pub mod Tap
pub mod Table
pub mod Room
pub mod Buffer
pub mod Scan
