-- ===== src/Files.antt =====
-- Open files and descriptor tables: `kernel/io/fdpool.c`, `kernel/io/openfile.c`,
-- `kernel/io/fdman.c`, and the descriptors of a process in `kernel/sched.c`.
mod Pools
mod Table
mod Count
mod Drop
pub mod Fork
pub mod Transfer
mod Lookup
mod Examples
use unidos.Base.{
  ℕ, zero, suc, ◌+◌, ◌-◌, ◌*◌, ◌/◌, ◌%◌, Bool, true, false, not, ◌&&◌, ◌||◌, ◌==◌, leb, ltb,
  if◌then◌else◌, Option, none, some, u32, sub32,
}
use unidos.Bitmap.Bits.{Bytes}
use unidos.Dpage.{Pool, dpage_bm_clear, dpage_is_allocated}
use unidos.Dpage.Supply.{Supply}

pub data KobjectType : Type 0 where
  type_blkdev : KobjectType
  type_vnode : KobjectType
  type_openfile : KobjectType
  type_pipe : KobjectType
  type_stream : KobjectType

-- `ssize_t`: a count, or the negative of an error code.
pub data Ssize : Type 0 where
  count : ℕ → Ssize
  negative : ℕ → Ssize

-- A function behind `io_ops`: of the target, the buffer, the length and the offset.
abbrev pub IoFn : Type 0
IoFn = ℕ → ℕ → ℕ → ℕ → Ssize

-- `file_target_t`, `open_file_t` and `fd_entry_t`. A pointer is the index of the slot in its pool.
-- The callbacks `kobj.ops` are left out: they are `NULL` or those of the console, which do nothing.
-- So are the flags and `self`, which are written once and never read.
pub record FileTarget : Type 0 where
  pub kind : KobjectType
  pub refcount : ℕ
  pub read : Option IoFn
  pub write : Option IoFn
  pub pool_id : ℕ

pub record OpenFile : Type 0 where
  pub kind : KobjectType
  pub refcount : ℕ
  pub offset : ℕ
  pub target : Option ℕ
  pub pool_id : ℕ

pub record FdEntry : Type 0 where
  pub fd_id : ℕ
  pub of : Option ℕ
  pub next : Option ℕ
  pub local_id : ℕ

-- The pools, their bitmaps, and the memory `M` below them.
pub record Files (M : Type 0) : Type 0 where
  pub openfile_bitmap : Bytes
  pub fd_bitmap : Bytes
  pub ftarget_bitmap : Bytes
  pub openfiles : ℕ → OpenFile
  pub fds : ℕ → FdEntry
  pub ftargets : ℕ → FileTarget
  pub pages : M

-- One page of bitmap for each pool; the sizes are those of the structures.
abbrev pub openfile_pool : Pool
openfile_pool = record { vaddr_base = 0xe4000000; element_size = 40; bitmap_size_bytes = 4096 }

abbrev pub fd_pool : Pool
fd_pool = record { vaddr_base = 0xe8000000; element_size = 16; bitmap_size_bytes = 4096 }

abbrev pub ftarget_pool : Pool
ftarget_pool = record { vaddr_base = 0xec000000; element_size = 76; bitmap_size_bytes = 4096 }

-- `((uint32_t)ret - BASE) / sizeof(*ret)`
abbrev pub slot_of : Pool → ℕ → ℕ
slot_of k vaddr = sub32 vaddr k.vaddr_base / k.element_size

-- The structures in a slot that has been cleared. The first kind of object is number 0.
abbrev pub no_target : FileTarget
no_target = record { kind = type_blkdev; refcount = 0; read = none; write = none; pool_id = 0 }

abbrev pub no_file : OpenFile
no_file = record { kind = type_blkdev; refcount = 0; offset = 0; target = none; pool_id = 0 }

abbrev pub no_entry : FdEntry
no_entry = record { fd_id = 0; of = none; next = none; local_id = 0 }

module _ {M : Type 0} where
  abbrev pub set_target : ℕ → FileTarget → Files M → Files M
  set_target t v f = record f { ftargets = λ i. if i == t then v else f.ftargets i }

  abbrev pub set_file : ℕ → OpenFile → Files M → Files M
  set_file o v f = record f { openfiles = λ i. if i == o then v else f.openfiles i }

  abbrev pub set_entry : ℕ → FdEntry → Files M → Files M
  set_entry d v f = record f { fds = λ i. if i == d then v else f.fds i }

  unfoldable pub fdpool_free_ftarget : Option ℕ → Files M → Files M
  fdpool_free_ftarget none f = f
  fdpool_free_ftarget (some t) f =
      set_target t no_target
        (record f { ftarget_bitmap = dpage_bm_clear (f.ftargets t).pool_id f.ftarget_bitmap 4096 })

  unfoldable pub fdpool_free_openfile : Option ℕ → Files M → Files M
  fdpool_free_openfile none f = f
  fdpool_free_openfile (some o) f =
      set_file o no_file (record f {
        openfile_bitmap = dpage_bm_clear (f.openfiles o).pool_id f.openfile_bitmap 4096;
      })

  unfoldable pub fdpool_free_fdentry : Option ℕ → Files M → Files M
  fdpool_free_fdentry none f = f
  fdpool_free_fdentry (some d) f =
      set_entry d no_entry
        (record f { fd_bitmap = dpage_bm_clear (f.fds d).fd_id f.fd_bitmap 4096 })

  unfoldable pub file_target_get : Option ℕ → Files M → Files M
  file_target_get none f = f
  file_target_get (some t) f =
      set_target t (record (f.ftargets t) { refcount = u32 ((f.ftargets t).refcount + 1) }) f

  -- `none` is the panic at an underflow.
  unfoldable pub file_target_put : Option ℕ → Files M → Option (Files M)
  file_target_put none f = some f
  file_target_put (some t) f =
      let n = (f.ftargets t).refcount in
      let g = set_target t (record (f.ftargets t) { refcount = n - 1 }) f in
      if n == 0 then none else if n - 1 == 0 then some (fdpool_free_ftarget (some t) g) else some g

  unfoldable pub open_file_get : Option ℕ → Files M → Files M
  open_file_get none f = f
  open_file_get (some o) f =
      set_file o (record (f.openfiles o) { refcount = u32 ((f.openfiles o).refcount + 1) }) f

  unfoldable pub open_file_put : Option ℕ → Files M → Option (Files M)
  open_file_put none f = some f
  open_file_put (some o) f =
      let n = (f.openfiles o).refcount in
      let g = set_file o (record (f.openfiles o) { refcount = n - 1 }) f in
      if n == 0
      then none
      else if n - 1 == 0
      then elim (file_target_put (f.openfiles o).target g) [
        | none ↦ none
        | some h ↦ some (fdpool_free_openfile (some o) h)
      ]
      else some g

  -- The walk that drops the reference of every entry of a list and frees the entry, in the error path
  -- of `fde_fork_copy` and in `sched_proc_cleanup_fds`, with at most `fuel` entries. `none` is a
  -- panic, or that the fuel is spent.
  unfoldable pub drop_entries : ℕ → Option ℕ → Files M → Option (Files M)
  drop_entries fuel none f = some f
  drop_entries zero (some d) f = none
  drop_entries (suc fuel) (some d) f =
      let next = (f.fds d).next in
      elim (open_file_put (f.fds d).of f) [
        | none ↦ none
        | some g ↦ drop_entries fuel next (fdpool_free_fdentry (some d) g)
      ]
