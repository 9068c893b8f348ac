-- ===== src/Blkdev/Examples.antt =====
-- The theorems on `kernel/io/blkdev.c` at a partition of 64 blocks of 512 bytes.
use unidos.Base.{ℕ, ◌*◌, ◌≡◌, ◌↔◌, arith, ◌==◌, if◌then◌else◌, none, some}
use unidos.Files.{Files, count, no_file, no_target, no_entry}
use unidos.Blkdev.{Blkdev, ready, blkdev_prepare_aligned_io, ft_blkdev_populate}
use unidos.Blkdev.Prepare.{Places, prepare_aligned_io-Places}

abbrev partition : Blkdev
partition = record {
  block_size = 512;
  read = none;
  write = some (λ buffer n lba. count (n * 512));
  base_lba = 100;
  span_blocks = 64;
}

abbrev on_disk : Files ℕ
on_disk = record {
  openfile_bitmap = λ i. if i == 0 then 1 else 0;
  fd_bitmap = λ _. 0;
  ftarget_bitmap = λ i. if i == 0 then 1 else 0;
  openfiles = λ i. if i == 0 then record no_file { refcount = 1; target = some 0 } else no_file;
  fds = λ _. no_entry;
  ftargets =
      λ i. if i == 0 then record (ft_blkdev_populate partition) { refcount = 1 } else no_target;
  pages = 0;
}

prepare_aligned_io-Places_example :
    (blkdev_prepare_aligned_io partition 1024 2048 ≡ ready 2 104) ↔ Places partition 1024 2048 2 104
prepare_aligned_io-Places_example =
    prepare_aligned_io-Places partition 1024 2048 (omega arith) (omega arith) 2 104
