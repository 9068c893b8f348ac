-- ===== src/Dpage/Init.antt =====
-- A pool after `dpage_init` of `kernel/dpage.c`.
use unidos.Base.{
  ℕ, zero, suc, ◌*◌, ◌/◌, ◌^◌, ◌<◌, ◌≡◌, ◌≢◌, arith, true, false, if◌then◌else◌, some, ltb,
}
use unidos.Bitmap.Bits.{Bytes, test_bit, test_bit-zero_byte}
use unidos.Paging.{is_present}
use unidos.Paging.Tables.{IsWellFormed, entry_at}
use unidos.Dpage.{
  dpage_success, Heap, Round, demand_map, kept_as_is, dpage_init, find_slot, Pool, slot_count,
}
use unidos.Dpage.Commit.{demand_map-Covers}

-- Both pages are mapped, and the next slot that is handed out is the first.
pub record Ready (bitmap_base pool_base : ℕ) (h : Heap) : Type 0 where
  pub well_formed : IsWellFormed h.paging
  pub bitmap_mapped : is_present (entry_at h.paging bitmap_base) ≡ true
  pub pool_mapped : is_present (entry_at h.paging pool_base) ≡ true
  pub all_free : (j : ℕ) → j < 8 * 4096 → test_bit h.bitmap j ≡ false
  pub first_slot :
      (k : Pool) → 0 < k.bitmap_size_bytes → find_slot h.bitmap (slot_count k) 0 ≡ some 0

module _ (bitmap_base pool_base : ℕ) (h : Heap) where
  abbrev one : Round
  one = demand_map kept_as_is kept_as_is bitmap_base h.paging

  abbrev two : Round
  two = demand_map kept_as_is kept_as_is pool_base one.paging

  abbrev cleared : Bytes
  cleared i = if ltb i 4096 then 0 else h.bitmap i

  cleared-bit : (j : ℕ) → j < 8 * 4096 → test_bit cleared j ≡ false
  cleared-bit j lt = test_bit-zero_byte cleared j (ground arith)

  cleared-first : (n : ℕ) → 0 < n → find_slot cleared n 0 ≡ some 0
  unfolding find_slot
  cleared-first zero lt = elim lt [ ]
  cleared-first (suc n) lt = ground (arith, cleared-bit 0 (omega arith))

  init-success :
      (dpage_init bitmap_base pool_base h).0 ≡ true
      → (one.status ≡ dpage_success)
        × (two.status ≡ dpage_success)
        × ((dpage_init bitmap_base pool_base h).1
            ≡ record { bitmap = cleared; paging = two.paging })
  unfolding dpage_init
  init-success ok = ground arith

  -- After `dpage_init` has succeeded in a well-formed state, the first page of the bitmap and that of
  -- the pool are mapped, all slots are free, and the first one is the next to be handed out. The two
  -- pages differ and lie below `2 ^ 32`.
  pub dpage_init-Ready :
      IsWellFormed h.paging
      → bitmap_base < 2 ^ 32
      → pool_base < 2 ^ 32
      → bitmap_base / 4096 ≢ pool_base / 4096
      → (dpage_init bitmap_base pool_base h).0 ≡ true
      → Ready bitmap_base pool_base (dpage_init bitmap_base pool_base h).1
  dpage_init-Ready w wb wp other ok =
      let (s1, s2, is) = init-success ok in
      let c = demand_map-Covers kept_as_is kept_as_is bitmap_base wb h.paging w s1 in
      let d = demand_map-Covers kept_as_is kept_as_is pool_base wp one.paging c.well_formed s2 in
      rw is (record {
        well_formed = d.well_formed;
        bitmap_mapped = rw (d.kept bitmap_base wb other c.present) c.present;
        pool_mapped = d.present;
        all_free = cleared-bit;
        first_slot = λ k pos. cleared-first (slot_count k) (omega arith);
      })
