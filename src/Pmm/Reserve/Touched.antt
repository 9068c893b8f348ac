-- ===== src/Pmm/Reserve/Touched.antt =====
-- The frames of the bitmap that a reservation of one frame touches.
use unidos.Base.{ℕ, ◌+◌, ◌*◌, ◌/◌, ◌≤◌, ◌<◌, ◌≡◌, ◌≢◌, max, true, false, arith, ◌==◌, if◌then◌else◌}
use unidos.Bitmap.Bits.{test_bit}
use unidos.Pmm.Regions.{MemRegion, is_reserved, reserve_table}
use unidos.Pmm.Regions.Covers.{covers, covered_by}
use unidos.Pmm.Regions.Table.{in_range}
use unidos.Pmm.Regions.Entry.{Takes, IsSound}
use unidos.Pmm.Regions.Overlap.{is_region_reserved-Meets}
use unidos.Pmm.State.{Pmm, frame_address}
use unidos.Pmm.State.Invariant.{IsValid}
use unidos.Pmm.Reserve.{pmm_reserve_range}
use unidos.Pmm.Reserve.Frames.{in_frames, set_frames-test_bit}
use unidos.Pmm.Reserve.Guard.{touched_count, touched-in_frames, reserved_state}

-- A frame that `bm_set_range_touched` marks for an entry holds an address of that entry.
in_frames-covered_by :
    (g n : ℕ) (q : MemRegion)
    → is_reserved q.type ≡ true
    → 0 < q.length
    → in_frames g (q.base / 4096) (touched_count q.base q.length n) ≡ true
    → (g * 4096 ≤ max (g * 4096) q.base)
      × (max (g * 4096) q.base < g * 4096 + 4096)
      × (covered_by (max (g * 4096) q.base) q ≡ true)
unfolding touched_count covered_by
in_frames-covered_by g n q kind live e = ground arith

module _ (f : ℕ) (s : Pmm) (v : IsValid s) (lt : f < s.frame_count) where
  other_frame :
      (g x : ℕ) → g ≢ f → g * 4096 ≤ x → x < g * 4096 + 4096 → in_range x (f * 4096) 4096 ≡ false
  other_frame g x ne lo hi = ground arith

  own_frame :
      (g : ℕ) (q : MemRegion)
      → Takes (f * 4096) 4096 q
      → g < s.frame_count
      → g ≡ f
      → in_frames g (q.base / 4096) (touched_count q.base q.length s.frame_count) ≡ true
  unfolding touched_count
  own_frame g q takes lg e =
      touched-in_frames q.base q.length g (g * 4096) s.frame_count lg (omega arith) (omega arith)
        (omega (arith, takes.lower)) (omega (arith, takes.upper))

  -- A frame that the merged entry touches is the new one, or was taken already.
  touched_before :
      (g : ℕ)
      (sound : IsSound (f * 4096) 4096 s.mem_regions (reserve_table (f * 4096) 4096 s.mem_regions))
      → g < s.frame_count
      → g ≢ f
      → in_frames g
          (sound.region.base / 4096)
          (touched_count sound.region.base sound.region.length s.frame_count)
        ≡ true
      → test_bit s.pagebitmap g ≡ true
  touched_before g sound lg ne hit =
      let q = sound.region in
      let live : 0 < q.length = omega (arith, sound.takes.lower, sound.takes.upper) in
      let (lo, hi, c) = in_frames-covered_by g s.frame_count q sound.takes.kind live hit in
      let x = max (g * 4096) q.base in
      let apart = other_frame g x ne lo hi in
      let old : covers x s.mem_regions ≡ true = ground (arith, sound.within x c, apart) in
      let exact : frame_address g ≡ g * 4096 = omega (arith, v.small) in
      v.guarded g lg (
        (is_region_reserved-Meets (frame_address g) 4096 (omega arith) s.mem_regions).1
          (x, omega arith, omega arith, old))

  pub range_bits :
      (g : ℕ)
      (sound : IsSound (f * 4096) 4096 s.mem_regions (reserve_table (f * 4096) 4096 s.mem_regions))
      → g < s.frame_count
      → test_bit (pmm_reserve_range (f * 4096) 4096 true s).1.pagebitmap g
        ≡ (if g == f then true else test_bit s.pagebitmap g)
  range_bits g sound lg =
      let q = sound.region in
      let n = touched_count q.base q.length s.frame_count in
      let state = reserved_state (f * 4096) 4096 0 s v (omega arith) q sound.entry sound.takes in
      let marked = set_frames-test_bit n (q.base / 4096) s g v.bytes in
      let own : g ≡ f → in_frames g (q.base / 4096) n ≡ true = own_frame g q sound.takes lg in
      let before : g ≢ f → in_frames g (q.base / 4096) n ≡ true → test_bit s.pagebitmap g ≡ true =
        touched_before g sound lg in
      rw state (ground (arith, marked, own, before))
