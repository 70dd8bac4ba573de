-- ===== src/Drivers.antt =====
-- The keyboard driver: kernel/drivers.
pub mod KbdMap
pub mod Kbd
pub mod Ansi
