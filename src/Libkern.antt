-- ===== src/Libkern.antt =====
-- system/libkern: formatted output and strings of bytes.
pub mod Numbers
pub mod Format
pub mod Bytes
pub mod Info
mod Tests
