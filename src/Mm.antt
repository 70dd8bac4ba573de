-- ===== src/Mm.antt =====
-- The memory manager: kernel/mm.
pub mod Bitmap
pub mod SysHeap
pub mod DeadBeef
pub mod Buddy
