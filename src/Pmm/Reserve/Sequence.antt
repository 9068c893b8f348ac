-- ===== src/Pmm/Reserve/Sequence.antt =====
-- `pmm_reserve_pageframe_seq`: what it hands out.
use unidos.Base.{ℕ, ◌+◌, ◌^◌, ◌≤◌, ◌<◌, ◌≡◌, Bool, true, false, Option, List, [], some, ◌⊎◌, length}
use unidos.Bitmap.Bits.{test_bit}
use unidos.Circular.{find_from}
use unidos.Pmm.Regions.{mem_regions_max}
use unidos.Pmm.State.{Pmm}
use unidos.Pmm.State.Invariant.{IsValid}
use unidos.Pmm.Reserve.{
  can_reserve, window_loop, addresses, PagingStatus, paging_ok, err_nomem, err_frame_reserve_failed,
}

abbrev pub Available : Pmm → ℕ → Type 0
Available s f = (f < s.frame_count) × (test_bit s.pagebitmap f ≡ false)

-- A frame that does not exist or is taken.
abbrev pub Unavailable : Pmm → ℕ → Type 0
Unavailable s f = (s.frame_count ≤ f) ⊎ (test_bit s.pagebitmap f ≡ true)

-- The number of frames that are left of a window: all of them, where all are available; else those
-- before the last one that is not.
abbrev pub IsCut : Pmm → ℕ → ℕ → ℕ → Type 0
IsCut s cur requested n =
    ((n ≡ requested) × ((j : ℕ) → j < requested → Available s (cur + j)))
    ⊎ ((n < requested)
        × Unavailable s (cur + n)
        × ((j : ℕ) → n < j → j < requested → Available s (cur + j)))

-- The outcomes of `pmm_reserve_pageframe_seq`.
abbrev pub MeetsSeq : Pmm → ℕ → PagingStatus × List ℕ × Pmm → Type 0
MeetsSeq s requested (r, given, s') =
    ((cur : ℕ) × (n : ℕ) × (r ≡ paging_ok)
      × (0 < n)
      × Available s cur
      × IsCut s cur requested n
      × (given ≡ addresses n cur))
    ⊎ (((r ≡ err_nomem) × (given ≡ []) × (s' ≡ s) × (s.available_frames ≡ 0))
        ⊎ ((r ≡ err_frame_reserve_failed)
            × (given ≡ [])
            × (s' ≡ s)
            × (mem_regions_max ≤ length s.mem_regions)))

module _ (clear : Bool) (s : Pmm) (v : IsValid s) (requested : ℕ) (pos : 0 < requested)
    (small : requested < 2 ^ 20) where
  abbrev search : Option ℕ
  search = find_from (can_reserve s) s.frame_count s.frame_count s.frame_hint

  module _ (cur : ℕ) (e : search ≡ some cur) where
    abbrev n : ℕ
    n = window_loop s cur requested requested
