-- ===== src/Terminal.antt =====
-- The terminal, system/terminal.
pub mod Output
pub mod Console
pub mod Pipe
