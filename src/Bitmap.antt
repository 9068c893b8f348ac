-- ===== src/Bitmap.antt =====
-- A bitmap in memory, one bit for a frame or a slot, as `kernel/kmem.c` and
-- `kernel/include/dpage.h` keep it: bit `f & 7` of byte `f >> 3`.
pub mod Byte
pub mod Bits
pub mod Count
