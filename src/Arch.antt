-- ===== src/Arch.antt =====
-- The registers of the LoongArch processor.
pub mod Csr
