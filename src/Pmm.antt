-- ===== src/Pmm.antt =====
-- The physical memory manager of `kernel/kmem.c`: the frame bitmap, the table of reserved regions,
-- allocation, permanent reservation and initialisation.
pub mod Regions
pub mod State
pub mod Alloc
pub mod Reserve
pub mod Examples
