-- ===== src/Sysio.antt =====
-- The console output: kernel/sysio.
pub mod Print
