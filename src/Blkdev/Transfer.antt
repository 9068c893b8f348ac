-- ===== src/Blkdev/Transfer.antt =====
-- Writing to an open file whose target is a block device of `kernel/io/blkdev.c`.
use unidos.Base.{ℕ, ◌^◌, ◌<◌, ◌≡◌, ◌≢◌, ◌⊎◌, refl, none, some, inl, inr}
use unidos.Files.{Files, Ssize, count, negative}
use unidos.Files.Transfer.{enosys}
use unidos.Blkdev.{
  Blkdev, BlockFn, Prepared, refused, ready, einval, eoverflow, efault, blkdev_prepare_aligned_io,
}
use unidos.Blkdev.Prepare.{Places}

Prepared-cases :
    (p : Prepared) → ((e : ℕ) × (p ≡ refused e)) ⊎ ((n : ℕ) × (lba : ℕ) × (p ≡ ready n lba))
Prepared-cases (refused e) = inl (e, refl)
Prepared-cases (ready n lba) = inr (n, lba, refl)

module _ (blk : Blkdev) (buffer bytesize offset : ℕ) where
  -- Why a request fails: a buffer that is `NULL`, a device that cannot be written to, or bytes that are
  -- no whole blocks in its span.
  abbrev pub Fails : ℕ → Type 0
  Fails e =
      ((buffer ≡ 0) × (bytesize ≢ 0) × (e ≡ efault))
      ⊎ (((blk.write ≡ none) × (e ≡ enosys))
          ⊎ (((n lba : ℕ) → ¬ Places blk bytesize offset n lba) × ((e ≡ einval) ⊎ (e ≡ eoverflow))))

  -- The answer is that of the driver for the blocks that hold the bytes, or that of nothing to do, or
  -- an error; `done` is what the answer comes to.
  abbrev pub Writes {ℓ} : {R : Type ℓ} → (Ssize → R) → R → Type ℓ
  Writes done r =
      ((n : ℕ) × (lba : ℕ) × (fn : BlockFn) × (blk.write ≡ some fn)
        × (0 < n)
        × Places blk bytesize offset n lba
        × (r ≡ done (fn buffer n lba)))
      ⊎ (((bytesize ≡ 0) × (r ≡ done (count 0))) ⊎ ((e : ℕ) × Fails e × (r ≡ done (negative e))))

module _ (blk : Blkdev) (buffer bytesize offset : ℕ) (size_word : blk.block_size < 2 ^ 32)
    (offset_word : offset < 2 ^ 64) where
  abbrev prepared : Prepared
  prepared = blkdev_prepare_aligned_io blk bytesize offset
