-- ===== src/Blkdev/Prepare.antt =====
-- What `blkdev_prepare_aligned_io` of `kernel/io/blkdev.c` accepts.
use native.Mathlib.Nat.{div-le_self, div-add-mod', mul-div_cancel, mul-mod_left}
use unidos.Base.{
  ℕ, ◌+◌, ◌-◌, ◌*◌, ◌/◌, ◌%◌, ◌^◌, ◌≤◌, ◌<◌, ◌≡◌, ◌↔◌, refl, sym, ap, ◌∙◌, arith, true, false, not,
  ltb, ◌==◌, if◌then◌else◌, bit_and, u64, Bool,
}
use unidos.Blkdev.{
  Blkdev, einval, eoverflow, Prepared, refused, ready, block_shift, blkdev_prepare_aligned_io,
}
use unidos.Blkdev.Powers.{bit_and-mask, block_shift-power}

-- The blocks that hold the `bytesize` bytes at `offset` of the device: `n` blocks from `lba` on, with
-- a block size that is a power of two, all in the span of the device.
pub record Places (blk : Blkdev) (bytesize offset n lba : ℕ) : Type 0 where
  pub some_bytes : 0 < blk.block_size
  pub power : bit_and blk.block_size (blk.block_size - 1) ≡ 0
  pub bytes : n * blk.block_size ≡ bytesize
  pub from_base : blk.base_lba ≤ lba
  pub start : (lba - blk.base_lba) * blk.block_size ≡ offset
  pub in_span : (lba - blk.base_lba) + n ≤ blk.span_blocks
  pub word : lba < 2 ^ 64

-- A guard that a request has passed.
guard-ready :
    (b : Bool) (e n lba : ℕ) (r : Prepared)
    → (if b then refused e else r) ≡ ready n lba
    → (b ≡ false) × (r ≡ ready n lba)
guard-ready true e n lba r q = absurd cc
guard-ready false e n lba r q = (refl, q)

abbrev blocks_of : Prepared → ℕ × ℕ
blocks_of (refused e) = (0, 0)
blocks_of (ready n lba) = (n, lba)

module _ (blk : Blkdev) (bytesize offset : ℕ) (size_word : blk.block_size < 2 ^ 32)
    (offset_word : offset < 2 ^ 64) where
  abbrev bs : ℕ
  bs = blk.block_size

  abbrev rel : ℕ
  rel = offset / 2 ^ block_shift bs

  -- The guards that let a request pass.
  record Passes (n lba : ℕ) : Type 0 where
    some_bytes : (bs == 0) ≡ false
    power : (bit_and bs (bs - 1) == 0) ≡ true
    aligned : (bit_and offset (bs - 1) == 0) ≡ true
    whole : (bytesize % bs == 0) ≡ true
    starts : ltb blk.span_blocks rel ≡ false
    ends : ltb (blk.span_blocks - rel) (bytesize / bs) ≡ false
    no_wrap : ltb (2 ^ 64 - 1 - rel) blk.base_lba ≡ false
    is_n : bytesize / bs ≡ n
    is_lba : u64 (blk.base_lba + rel) ≡ lba

  passes-in :
      (n lba : ℕ) → blkdev_prepare_aligned_io blk bytesize offset ≡ ready n lba → Passes n lba
  unfolding blkdev_prepare_aligned_io
  passes-in n lba e =
      let (g1, e1) = guard-ready (bs == 0) einval n lba _ e in
      let (g2, e2) = guard-ready (not (bit_and bs (bs - 1) == 0)) einval n lba _ e1 in
      let (g3, e3) = guard-ready (not (bit_and offset (bs - 1) == 0)) einval n lba _ e2 in
      let (g4, e4) = guard-ready (not (bytesize % bs == 0)) einval n lba _ e3 in
      let (g5, e5) = guard-ready (ltb blk.span_blocks rel) einval n lba _ e4 in
      let (g6, e6) = guard-ready (ltb (blk.span_blocks - rel) (bytesize / bs)) einval n lba _ e5 in
      let (g7, e7) =
        guard-ready (ltb (2 ^ 64 - 1 - rel) blk.base_lba) eoverflow n lba
          (ready (bytesize / bs) (u64 (blk.base_lba + rel))) e6 in
      record {
        some_bytes = g1;
        power = ground (arith, g2);
        aligned = ground (arith, g3);
        whole = ground (arith, g4);
        starts = g5;
        ends = g6;
        no_wrap = g7;
        is_n = ap (λ r. (blocks_of r).0) e7;
        is_lba = ap (λ r. (blocks_of r).1) e7;
      }

  passes-out :
      (n lba : ℕ) → Passes n lba → blkdev_prepare_aligned_io blk bytesize offset ≡ ready n lba
  unfolding blkdev_prepare_aligned_io
  passes-out n lba p =
      rw (p.some_bytes, p.power, p.aligned, p.whole, p.starts, p.ends, p.no_wrap, p.is_n, p.is_lba)
        refl

  -- With a block size that is a power of two, the mask and the shift divide by it.
  module _ (some_bytes : 0 < bs) (power : bit_and bs (bs - 1) ≡ 0) where
    exponent : 2 ^ block_shift bs ≡ bs
    exponent = block_shift-power bs some_bytes size_word power

    mask : bit_and offset (bs - 1) ≡ offset % bs
    mask =
        ap (λ x. bit_and offset (x - 1)) (sym exponent)
        ∙ bit_and-mask (block_shift bs) offset
        ∙ ap (λ x. offset % x) exponent

    shift : rel ≡ offset / bs
    shift = ap (λ x. offset / x) exponent

  passes-Places : (n lba : ℕ) → Passes n lba → Places blk bytesize offset n lba
  passes-Places n lba p =
      let some_bytes : 0 < bs = ground (arith, p.some_bytes) in
      let power : bit_and bs (bs - 1) ≡ 0 = ground (arith, p.power) in
      let aligned : offset % bs ≡ 0 = ground (arith, p.aligned, mask some_bytes power) in
      let whole : bytesize % bs ≡ 0 = ground (arith, p.whole) in
      let starts : rel ≤ blk.span_blocks = ground (arith, p.starts) in
      let ends : bytesize / bs ≤ blk.span_blocks - rel = ground (arith, p.ends) in
      let no_wrap : blk.base_lba ≤ 2 ^ 64 - 1 - rel = ground (arith, p.no_wrap) in
      let lba-is : lba ≡ blk.base_lba + rel =
        let small : rel ≤ offset = omega (arith, shift some_bytes power, div-le_self offset bs) in
        omega (arith, p.is_lba, no_wrap, small) in
      record {
        some_bytes = some_bytes;
        power = power;
        bytes = omega (arith, div-add-mod' bytesize bs, whole, ap (λ x. x * bs) p.is_n);
        from_base = omega (arith, lba-is);
        start =
            let distance : lba - blk.base_lba ≡ offset / bs =
              omega (arith, lba-is, shift some_bytes power) in
            omega (arith, div-add-mod' offset bs, aligned, ap (λ x. x * bs) distance);
        in_span = omega (arith, lba-is, starts, ends, p.is_n);
        word = omega (arith, p.is_lba);
      }

  places-Passes : (n lba : ℕ) → Places blk bytesize offset n lba → Passes n lba
  places-Passes n lba p =
      let k = lba - blk.base_lba in
      let rel-is : rel ≡ k =
        shift p.some_bytes p.power
        ∙ ap (λ x. x / bs) (sym p.start)
        ∙ mul-div_cancel k p.some_bytes in
      let n-is : bytesize / bs ≡ n =
        ap (λ x. x / bs) (sym p.bytes) ∙ mul-div_cancel n p.some_bytes in
      let aligned : offset % bs ≡ 0 = ap (λ x. x % bs) (sym p.start) ∙ mul-mod_left k bs in
      let whole : bytesize % bs ≡ 0 = ap (λ x. x % bs) (sym p.bytes) ∙ mul-mod_left n bs in
      record {
        some_bytes = ground (arith, p.some_bytes);
        power = ground (arith, p.power);
        aligned = ground (arith, aligned, mask p.some_bytes p.power);
        whole = ground (arith, whole);
        starts = ground (arith, rel-is, p.in_span);
        ends = ground (arith, rel-is, n-is, p.in_span);
        no_wrap = ground (arith, rel-is, p.word, p.from_base);
        is_n = n-is;
        is_lba = omega (arith, rel-is, p.word, p.from_base);
      }

  -- For a block size of 32 bits and an offset of 64 bits, `blkdev_prepare_aligned_io` accepts a request
  -- exactly where the block size is a power of two and the bytes are whole blocks in the span of the
  -- device, whose numbers do not wrap around; it answers their number and the first one.
  pub prepare_aligned_io-Places :
      (n lba : ℕ)
      → (blkdev_prepare_aligned_io blk bytesize offset ≡ ready n lba)
        ↔ Places blk bytesize offset n lba
  prepare_aligned_io-Places n lba =
      (λ e. passes-Places n lba (passes-in n lba e), λ p. passes-out n lba (places-Passes n lba p))
