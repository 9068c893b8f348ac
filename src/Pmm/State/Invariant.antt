-- ===== src/Pmm/State/Invariant.antt =====
-- What holds of the frame bitmap between two calls, and that setting and clearing a bit keep it.
use unidos.Base.{ℕ, ◌^◌, ◌≤◌, ◌<◌, ◌≡◌, true, false, arith}
use unidos.Bitmap.Bits.{
  AreBytes, test_bit, set_bit-AreBytes, clear_bit-AreBytes, set_bit-changes, clear_bit-changes,
  test_bit-set, test_bit-clear,
}
use unidos.Bitmap.Count.{
  count_clear, count_clear-le, count_clear-pos, count_clear-set, count_clear-clear,
  count_clear-set_again, count_clear-clear_again,
}
use unidos.Pmm.Regions.Loop.{AllBelow}
use unidos.Pmm.State.{Pmm, bm_set, bm_clear, frame_reserved, frame_address}

-- A frame that overlaps a reserved region is taken.
abbrev pub Guarded : Pmm → Type 0
Guarded s =
    (f : ℕ)
    → f < s.frame_count
    → frame_reserved s (frame_address f) ≡ true
    → test_bit s.pagebitmap f ≡ true

-- After `pmm_init`: the counter is exact, the hint is a frame, and no reserved frame is free.
pub record IsValid (s : Pmm) : Type 0 where
  pub ready : s.bitmap_ready ≡ true
  pub bytes : AreBytes s.pagebitmap
  pub small : s.frame_count ≤ 2 ^ 20
  pub hint : s.frame_hint < s.frame_count
  pub counted : s.available_frames ≡ count_clear s.pagebitmap s.frame_count
  pub below : AllBelow (2 ^ 32) s.mem_regions
  pub guarded : Guarded s

module _ (s : Pmm) (f : ℕ) (v : IsValid s) (lt : f < s.frame_count) where
  bm_set-counted : (bm_set f s).available_frames ≡ count_clear (bm_set f s).pagebitmap s.frame_count
  unfolding bm_set
  bm_set-counted = ground (
    arith,
    v.counted,
    v.small,
    set_bit-changes s.pagebitmap v.bytes f,
    count_clear-le s.pagebitmap s.frame_count,
    count_clear-pos s.pagebitmap s.frame_count f,
    count_clear-set s.pagebitmap v.bytes f s.frame_count lt,
    count_clear-set_again s.pagebitmap v.bytes f s.frame_count,
  )

  bm_clear-counted :
      (bm_clear f s).available_frames ≡ count_clear (bm_clear f s).pagebitmap s.frame_count
  unfolding bm_clear
  bm_clear-counted = ground (
    arith,
    v.counted,
    v.small,
    clear_bit-changes s.pagebitmap v.bytes f,
    count_clear-le s.pagebitmap s.frame_count,
    count_clear-clear s.pagebitmap v.bytes f s.frame_count lt,
    count_clear-clear_again s.pagebitmap v.bytes f s.frame_count,
  )

  pub bm_set-IsValid : IsValid (bm_set f s)
  unfolding bm_set
  bm_set-IsValid = record {
    ready = v.ready;
    bytes = set_bit-AreBytes s.pagebitmap f v.bytes;
    small = v.small;
    hint = v.hint;
    counted = bm_set-counted;
    below = v.below;
    guarded = λ g lg r. ground (arith, v.guarded g lg r, test_bit-set s.pagebitmap v.bytes f g);
  }

  pub bm_clear-IsValid : frame_reserved s (frame_address f) ≡ false → IsValid (bm_clear f s)
  unfolding bm_clear
  bm_clear-IsValid out = record {
    ready = v.ready;
    bytes = clear_bit-AreBytes s.pagebitmap f v.bytes;
    small = v.small;
    hint = v.hint;
    counted = bm_clear-counted;
    below = v.below;
    guarded = λ g lg r. ground (arith, v.guarded g lg r, test_bit-clear s.pagebitmap v.bytes f g);
  }

pub hint-IsValid :
    (s : Pmm) (h : ℕ) → IsValid s → h < s.frame_count → IsValid (record s { frame_hint = h })
hint-IsValid s h v lt = record {
  ready = v.ready;
  bytes = v.bytes;
  small = v.small;
  hint = lt;
  counted = v.counted;
  below = v.below;
  guarded = v.guarded;
}
