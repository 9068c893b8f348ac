-- ===== src/Pmm/Reserve/Frames.antt =====
-- Ranges of frames in the bitmap: what `bm_set_range_touched` and `bm_clear_range_full_pages` do.
use unidos.Base.{
  ℕ, zero, suc, ◌+◌, ◌-◌, ◌/◌, ◌≤◌, ◌<◌, ◌≡◌, refl, min, Bool, true, arith, leb, ltb, ◌&&◌,
  if◌then◌else◌, List,
}
use unidos.Bitmap.Bits.{AreBytes, test_bit, test_bit-set, set_bit-AreBytes}
use unidos.Pmm.Regions.{MemRegion}
use unidos.Pmm.State.{Pmm, bm_set}
use unidos.Pmm.State.Invariant.{IsValid, bm_set-IsValid}
use unidos.Pmm.Reserve.{set_frames, bm_set_range_touched}

abbrev pub in_frames : ℕ → ℕ → ℕ → Bool
in_frames g f n = leb f g && ltb g (f + n)

pub set_frames-test_bit :
    (n f : ℕ) (s : Pmm) (g : ℕ)
    → AreBytes s.pagebitmap
    → test_bit (set_frames n f s).pagebitmap g
      ≡ (if in_frames g f n then true else test_bit s.pagebitmap g)
unfolding set_frames
set_frames-test_bit zero f s g b = ground arith
set_frames-test_bit (suc n) f s g b = ground (
  arith,
  test_bit-set s.pagebitmap b f g,
  set_frames-test_bit n (f + 1) (bm_set f s) g (set_bit-AreBytes s.pagebitmap f b),
)

pub set_frames-frame_count : (n f : ℕ) (s : Pmm) → (set_frames n f s).frame_count ≡ s.frame_count
unfolding set_frames
set_frames-frame_count zero f s = refl
set_frames-frame_count (suc n) f s = set_frames-frame_count n (f + 1) (bm_set f s)

pub set_frames-mem_regions : (n f : ℕ) (s : Pmm) → (set_frames n f s).mem_regions ≡ s.mem_regions
unfolding set_frames
set_frames-mem_regions zero f s = refl
set_frames-mem_regions (suc n) f s = set_frames-mem_regions n (f + 1) (bm_set f s)

-- The bitmap is marked the same way whatever the table holds.
pub set_frames-with_regions :
    (n f : ℕ) (s : Pmm) (t : List MemRegion)
    → set_frames n f (record s { mem_regions = t }) ≡ record (set_frames n f s) { mem_regions = t }
unfolding set_frames
set_frames-with_regions zero f s t = refl
set_frames-with_regions (suc n) f s t = set_frames-with_regions n (f + 1) (bm_set f s) t

pub set_frames-IsValid :
    (n f : ℕ) (s : Pmm) → IsValid s → f + n ≤ s.frame_count → IsValid (set_frames n f s)
unfolding set_frames
set_frames-IsValid zero f s v le = v
set_frames-IsValid (suc n) f s v le =
    set_frames-IsValid n (f + 1) (bm_set f s) (bm_set-IsValid s f v (omega arith))
      (omega (arith, set_frames-frame_count 1 f s))

-- A range that is marked covers each frame that it meets.
pub bm_set_range_touched-frames :
    (base len : ℕ) (s : Pmm)
    → 0 < len
    → bm_set_range_touched base len s
      ≡ set_frames (min ((base + len + 0xfff) / 4096) s.frame_count - base / 4096) (base / 4096) s
unfolding bm_set_range_touched
bm_set_range_touched-frames base len s pos = ground arith
