-- ===== src/Blkdev.antt =====
-- `kernel/io/blkdev.c`: reading and writing bytes on a block device.
mod Powers
mod Prepare
mod Transfer
mod Examples
use unidos.Base.{
  ℕ, zero, suc, ◌+◌, ◌-◌, ◌/◌, ◌%◌, ◌^◌, Bool, true, false, not, ◌&&◌, ◌==◌, ltb, if◌then◌else◌,
  Option, none, some, bit_and, u64,
}
use unidos.Files.{Ssize, count, negative, FileTarget, type_blkdev}
use unidos.Files.Transfer.{enosys, ebadfd}

abbrev pub einval : ℕ
einval = 0x16

abbrev pub eoverflow : ℕ
eoverflow = 0x4b

abbrev pub efault : ℕ
efault = 0x0e

-- A function of `blkdev_target_io_ops_t`: of the buffer, the number of blocks and the first block. The
-- driver is a parameter; the device itself and the driver's context are known to it.
abbrev pub BlockFn : Type 0
BlockFn = ℕ → ℕ → ℕ → Ssize

-- `kblkdev_t`
pub record Blkdev : Type 0 where
  pub block_size : ℕ
  pub read : Option BlockFn
  pub write : Option BlockFn
  pub base_lba : ℕ
  pub span_blocks : ℕ

-- The result of `blkdev_prepare_aligned_io`: a code that is not 0, or the number of blocks and the
-- first one.
pub data Prepared : Type 0 where
  refused : ℕ → Prepared
  ready : ℕ → ℕ → Prepared

-- The loop that finds `block_shift`.
unfoldable pub shift_loop : ℕ → ℕ → ℕ → ℕ
shift_loop zero bs block_shift = block_shift
shift_loop (suc fuel) bs block_shift =
    let rest = shift_loop fuel (bs / 2) (block_shift + 1) in if ltb 1 bs then rest else block_shift

-- The block size is a word of 32 bits.
unfoldable pub block_shift : ℕ → ℕ
block_shift block_size = shift_loop 32 block_size 0

-- The pointers to the outputs are those of the two callers' own variables.
unfoldable pub blkdev_prepare_aligned_io : Blkdev → ℕ → ℕ → Prepared
blkdev_prepare_aligned_io blk bytesize offset =
    let rel_lba = offset / 2 ^ block_shift blk.block_size in
    let block_count = bytesize / blk.block_size in
    if blk.block_size == 0
    then refused einval
    else if not (bit_and blk.block_size (blk.block_size - 1) == 0)
    then refused einval
    else if not (bit_and offset (blk.block_size - 1) == 0)
    then refused einval
    else if not (bytesize % blk.block_size == 0)
    then refused einval
    else if ltb blk.span_blocks rel_lba
    then refused einval
    else if ltb (blk.span_blocks - rel_lba) block_count
    then refused einval
    else if ltb (2 ^ 64 - 1 - rel_lba) blk.base_lba
    then refused eoverflow
    else ready block_count (u64 (blk.base_lba + rel_lba))

-- The end of both functions: the call of the driver, where there are blocks and a function.
abbrev pub call_driver : Option BlockFn → ℕ → Prepared → Ssize
call_driver fn buffer (refused e) = negative e
call_driver fn buffer (ready block_count lba) =
    if block_count == 0
    then count 0
    else elim fn [ none ↦ negative enosys | some f ↦ f buffer block_count lba ]

-- `target` is `none` for `NULL`, and a buffer 0 is `NULL`.
unfoldable pub kblkdev_write_bytes : Option Blkdev → ℕ → ℕ → ℕ → Ssize
kblkdev_write_bytes none buffer bytesize offset = negative ebadfd
kblkdev_write_bytes (some blk) buffer bytesize offset =
    if buffer == 0 && not (bytesize == 0)
    then negative efault
    else call_driver blk.write buffer (blkdev_prepare_aligned_io blk bytesize offset)

unfoldable pub kblkdev_read_bytes : Option Blkdev → ℕ → ℕ → ℕ → Ssize
kblkdev_read_bytes none buffer bytesize offset = negative ebadfd
kblkdev_read_bytes (some blk) buffer bytesize offset =
    if buffer == 0 && not (bytesize == 0)
    then negative efault
    else call_driver blk.read buffer (blkdev_prepare_aligned_io blk bytesize offset)

-- The target of a device: a fresh target, with the two functions on the device that it holds.
unfoldable pub ft_blkdev_populate : Blkdev → FileTarget
ft_blkdev_populate blk = record {
  kind = type_blkdev;
  refcount = 0;
  read = some (λ t buffer len offset. kblkdev_read_bytes (some blk) buffer len offset);
  write = some (λ t buffer len offset. kblkdev_write_bytes (some blk) buffer len offset);
  pool_id = 0;
}
