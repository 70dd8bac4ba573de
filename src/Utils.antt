-- ===== src/Utils.antt =====
-- The freestanding C library of the kernel: kernel/utils.
pub mod Memory
pub mod Strings
pub mod Split
pub mod MemMap
mod Tests
