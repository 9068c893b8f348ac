-- ===== src/Lib.antt =====
-- The kernel of unidos: what it learns at boot, its memory management, its scheduler, its open files
-- and block devices, and the copies between kernel and user memory, as executable definitions with
-- the theorems that make them correct.
--
-- The parts and the files that model them (paths from the root of the repository):
--
-- - Pmm: kernel/kmem.c, the physical memory manager. A record holds the file's variables: the bitmap
--   of frames, the hint, the count of available frames and the table of reserved regions. Pmm.State
--   has the record and the helpers on the bitmap (bm_set, bm_clear, pmm_query_bitmap), Pmm.Regions
--   the table (pmm_is_region_reserved and pmm_reserve_range with its merging loop), Pmm.Alloc the
--   transient frames (pmm_alloc_frame, pmm_get_next_available_block, pmm_alloc_specific_block,
--   pmm_dealloc_specific_block), and Pmm.Reserve the permanent ones (pmm_reserve_pageframe,
--   pmm_reserve_pageframe_seq) with pmm_init.
-- - Paging: kernel/paging.c. paging_map_page, paging_query_page, paging_unmap_page,
--   paging_unmap_and_free_page and paging_set_flags, on the words of physical memory. New page
--   tables come from Pmm; its state is a field of the paging state. Paging.Install is about the new
--   tables, Paging.Map about mapping, Paging.Change about the other calls.
-- - Vma: kernel/vma.c, the list of areas of an address space: vma_insert, vma_remove, vma_find.
-- - Sched: kernel/sched.c. Sched.Sleep has the sleep queue and the tick, Sched.Slots the search for
--   a thread slot, Sched.Run the run queue and sched_do_switch, Sched.Run.Rounds switches in a row,
--   Sched.Wait the lists of threads that wait for a process, and Sched.Family the lists of children.
--   A pointer to a thread or a process is the index of its slot in the pool.
-- - Uaccess: kernel/uaccess.c. copyout and copyin, whose checks walk the pages by
--   paging_query_page of Paging, and kmemcpy of kernel/include/kmain.h.
-- - Boot: kernel/bootinfo.c with kernel/include/bootinfo.h. Boot.Decode has decode_e820, the walk over
--   the entries of the memory map, and Boot.Init bootinfo_init with its parts.
-- - Dpage: kernel/dpage.c and the inline functions of kernel/include/dpage.h, pools of slots whose
--   pages are mapped when a slot is handed out: dpage_init and dpage_alloc, on Paging and Pmm.
--   Dpage.Supply is what its clients use of it: a record of the search for a slot and its laws,
--   which dpage_supply fills with dpage_alloc.
-- - Files: kernel/io/fdpool.c, kernel/io/openfile.c, kernel/io/fdman.c and, of kernel/sched.c,
--   sched_proc_cleanup_fds, sched_get_proc_local_fd and the copy of the descriptors at a fork. The
--   pools are taken from a Supply. Files.Table is about lists of descriptors, Files.Drop about their
--   end, Files.Fork about the copy, Files.Count about the counts of references, and Files.Transfer
--   about reading and writing.
-- - Blkdev: kernel/io/blkdev.c. blkdev_prepare_aligned_io, kblkdev_read_bytes and
--   kblkdev_write_bytes; the target that ft_blkdev_populate makes is one of Files. The functions of
--   a driver are parameters.
-- - Kva: kernel/kva.c, the named regions of kernel virtual memory: kva_register_region, the lookups
--   by name, and kva_map_region, on Paging and Pmm. A panic is none. Kva.Leak is about the frame that a
--   failed mapping loses.
-- - Pool: kernel/pool.c, pool_init and pool_get_kstack, on the regions of Kva.
-- - Base, Bitmap, Circular and Chain are shared: names of the libraries and tests on numbers, bits
--   in bytes and their count, searches that go round a table once, and linked lists through a field
--   that holds the next node (kernel/sched.c and kernel/vma.c walk them in the same way).
--
-- Numbers. Words are natural numbers; where a sum or a difference can leave 32 or 64 bits, the wrap
-- is written out (u32, u64, sub64). Bits that are shifted and masked are written with / and %; the
-- bytes of the bitmap and the tests on a block size use the operations on bits.
--
-- Memory. Physical memory is a function from the index of a 32-bit word. The bitmap, which lies in
-- it too, is kept apart, and so are the pools of threads and areas: none of them is reached through
-- the page tables that Paging writes. Uaccess keeps the bytes of physical memory and finds them as
-- the processor does, by the tables; the memory of the tables themselves is apart from them. A
-- physical address is taken to lie in the window on physical memory, below 0x30000000: for others
-- PHYS_TO_VIRT panics, which the walks of the tables and the clearing of pages do not show.
--
-- Loops. A loop over a table or a list takes a count of rounds: the number of frames, of threads or
-- of slots, or, for the merging loop of pmm_reserve_range, the number of regions and two. It is
-- shown that this is enough: a list of different slots is not longer than the pool
-- (Chain.Order.length-below), and the merging loop has ended by then. A list of descriptors takes the
-- number of their slots, 32768; the loop for the scalar in pool_init takes four rounds, after which
-- its own test has ended it; the loop for the shift of a block size takes 32, one for each bit; and
-- the loops over the entries of the memory map and the pages of a region count down what the source
-- counts up.
--
-- Not modelled: the start of the kernel, interrupts, ports and devices, which are inline assembly
-- or assembly; the TLB; the console; the texts of errors; the start and the end of threads and
-- processes; the address spaces of processes (kernel/mm.c) beyond their areas; the remapping of the
-- kernel; the system calls; and fdpool_init, which makes the three pools of Files by dpage_init. A
-- call that the source makes with interrupts disabled is one step. A check of the privilege level
-- that would panic is taken to hold.
pub mod Base
pub mod Bitmap
pub mod Blkdev
pub mod Boot
pub mod Chain
pub mod Circular
pub mod Dpage
pub mod Files
pub mod Kva
pub mod Paging
pub mod Pmm
pub mod Pool
pub mod Sched
pub mod Uaccess
pub mod Vma
