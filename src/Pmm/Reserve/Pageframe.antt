-- ===== src/Pmm/Reserve/Pageframe.antt =====
-- `pmm_reserve_pageframe` takes one free frame for good, and no other.
use unidos.Base.{
  ℕ, ◌+◌, ◌*◌, ◌/◌, ◌%◌, ◌^◌, ◌≤◌, ◌<◌, ◌≡◌, ◌≢◌, refl, Bool, true, false, not, arith, ◌==◌, ◌&&◌,
  ◌||◌, if◌then◌else◌, inl, inr, List, none, Option-cases, length, ◌⊎◌, ◌∙◌, is_some,
}
use unidos.Bitmap.Bits.{test_bit, test_bit-set}
use unidos.Bitmap.Count.{count_clear-full}
use unidos.Circular.{find_from, find_from-passes, find_from-lt, find_from-covers}
use unidos.Pmm.Regions.{
  MemRegion, mem_regions_max, reserve_table, Reservation, pmm_is_region_reserved,
  no_more_region_slots,
}
use unidos.Pmm.Regions.Covers.{covers}
use unidos.Pmm.Regions.Table.{in_range, reserve_table-covers}
use unidos.Pmm.Regions.Entry.{
  IsSound, reserve_table-IsSound, reserve_table-full, reserve_table-no_room,
}
use unidos.Pmm.Regions.Overlap.{is_region_reserved-Meets}
use unidos.Pmm.State.{Pmm, bm_set, frame_address, frame_reserved, pmm_query_bitmap}
use unidos.Pmm.State.Invariant.{IsValid, bm_set-IsValid, hint-IsValid}
use unidos.Pmm.Reserve.{
  pmm_reserve_range, can_reserve, reserve_found, pmm_reserve_pageframe, is_reservation,
  PagingStatus, paging_ok, err_nomem, err_frame_reserve_failed, clear_page, mark_reserved,
}
use unidos.Pmm.Reserve.Frames.{set_frames-frame_count}
use unidos.Pmm.Reserve.Guard.{touched_count, slots-cases, reserved_state, reserve_range-IsValid}
use unidos.Pmm.Reserve.Touched.{range_bits}

-- Frame `f`, free until then, is reserved for good, and no other frame changes.
pub record Reserves (f : ℕ) (s s' : Pmm) : Type 0 where
  pub in_bounds : f < s.frame_count
  pub was_free : test_bit s.pagebitmap f ≡ false
  pub was_unreserved : frame_reserved s (f * 4096) ≡ false
  pub permanent : frame_reserved s' (f * 4096) ≡ true
  pub taken :
      (g : ℕ)
      → g < s.frame_count
      → test_bit s'.pagebitmap g ≡ (if g == f then true else test_bit s.pagebitmap g)
  pub valid : IsValid s'

clear_page-IsValid :
    (clear : Bool) (address : ℕ) (s : Pmm) → IsValid s → IsValid (clear_page clear address s)
clear_page-IsValid true address s v = record {
  ready = v.ready;
  bytes = v.bytes;
  small = v.small;
  hint = v.hint;
  counted = v.counted;
  below = v.below;
  guarded = v.guarded;
}
clear_page-IsValid false address s v = v

clear_page-pagebitmap :
    (clear : Bool) (address : ℕ) (s : Pmm)
    → ((clear_page clear address s).pagebitmap ≡ s.pagebitmap)
      × ((clear_page clear address s).mem_regions ≡ s.mem_regions)
clear_page-pagebitmap true address s = (refl, refl)
clear_page-pagebitmap false address s = (refl, refl)

pub can_reserve-free :
    (s : Pmm) (f : ℕ)
    → f < s.frame_count
    → s.frame_count ≤ 2 ^ 20
    → can_reserve s f ≡ true
    → (test_bit s.pagebitmap f ≡ false) × (frame_reserved s (f * 4096) ≡ false)
unfolding can_reserve pmm_query_bitmap
can_reserve-free s f lt small e =
    let exact : frame_address f ≡ f * 4096 = omega arith in
    let index : f * 4096 / 4096 ≡ f = omega arith in
    let e' : (not (frame_reserved s (f * 4096)) && not (pmm_query_bitmap s (f * 4096))) ≡ true =
      rw exact at e in
    ground arith

pub cannot_reserve-taken :
    (s : Pmm)
    → IsValid s
    → (g : ℕ) → g < s.frame_count
    → can_reserve s g ≡ false
    → test_bit s.pagebitmap g ≡ true
unfolding can_reserve pmm_query_bitmap
cannot_reserve-taken s v g lt e =
    let exact : frame_address g ≡ g * 4096 = omega (arith, v.small) in
    let index : g * 4096 / 4096 ≡ g = omega arith in
    let e' : (not (frame_reserved s (g * 4096)) && not (pmm_query_bitmap s (g * 4096))) ≡ false =
      rw exact at e in
    let guard : frame_reserved s (g * 4096) ≡ true → test_bit s.pagebitmap g ≡ true =
      λ r. v.guarded g lt (rw exact r) in
    ground arith

pub reserve_range-full :
    (base len : ℕ) (s : Pmm)
    → 0 < len
    → (reserve_table base len s.mem_regions).result ≡ no_more_region_slots
    → pmm_reserve_range base len true s ≡ (no_more_region_slots, s)
unfolding pmm_reserve_range
reserve_range-full base len s pos full =
    let same = reserve_table-full base len s.mem_regions pos full in rw (full, same.1, same.0)

pub reserve_range-result :
    (base len : ℕ) (s : Pmm)
    → (pmm_reserve_range base len true s).0 ≡ (reserve_table base len s.mem_regions).result
unfolding pmm_reserve_range
reserve_range-result base len s = refl

pub reserve_table-is_reservation :
    (base len : ℕ) (regions : List MemRegion)
    → 0 < len
    → (reserve_table base len regions).result ≢ no_more_region_slots
    → is_reservation (reserve_table base len regions).result ≡ true
unfolding reserve_table
reserve_table-is_reservation base len regions pos room = ground arith

module _ (clear : Bool) (f : ℕ) (s : Pmm) (v : IsValid s) (lt : f < s.frame_count) where
  mark_reserved-IsValid : IsValid (mark_reserved clear f s)
  unfolding mark_reserved bm_set
  mark_reserved-IsValid =
      let next_lt : (f + 1) % s.frame_count < s.frame_count = omega arith in
      clear_page-IsValid clear (frame_address f)
        (record (bm_set f s) { frame_hint = (f + 1) % s.frame_count })
        (hint-IsValid (bm_set f s) ((f + 1) % s.frame_count) (bm_set-IsValid s f v lt) next_lt)

  mark_reserved-test_bit :
      (g : ℕ)
      → test_bit (mark_reserved clear f s).pagebitmap g
        ≡ (if g == f then true else test_bit s.pagebitmap g)
  unfolding mark_reserved bm_set
  mark_reserved-test_bit g =
      rw
        (clear_page-pagebitmap clear (frame_address f)
          (record (bm_set f s) { frame_hint = (f + 1) % s.frame_count })).0
        (test_bit-set s.pagebitmap v.bytes f g)

  mark_reserved-mem_regions : (mark_reserved clear f s).mem_regions ≡ s.mem_regions
  unfolding mark_reserved bm_set
  mark_reserved-mem_regions =
      (clear_page-pagebitmap clear (frame_address f)
        (record (bm_set f s) { frame_hint = (f + 1) % s.frame_count })).1

-- `free` is an address that no frame of the bitmap holds and no region covers.
module _ (clear : Bool) (f free : ℕ) (s : Pmm) (v : IsValid s) (lt : f < s.frame_count)
    (beyond : s.frame_count * 4096 ≤ free) (word : free < 2 ^ 32)
    (unused : covers free s.mem_regions ≡ false) where
  abbrev after : Pmm
  after = (pmm_reserve_range (f * 4096) 4096 true s).1

  abbrev result : Reservation
  result = reserve_table (f * 4096) 4096 s.mem_regions

  found-IsSound :
      result.result ≢ no_more_region_slots → IsSound (f * 4096) 4096 s.mem_regions result
  found-IsSound room =
      reserve_table-IsSound (f * 4096) 4096 (omega (arith, v.small)) s.mem_regions free
        (omega arith) v.below word unused (ground arith) room

  found-covers :
      (x : ℕ)
      → result.result ≢ no_more_region_slots
      → covers x result.table ≡ (covers x s.mem_regions || in_range x (f * 4096) 4096)
  found-covers x room =
      reserve_table-covers (f * 4096) 4096 s.mem_regions free x (omega arith)
        (omega (arith, v.small)) v.below word unused (ground arith) room

  after-IsValid : IsValid after
  after-IsValid =
      reserve_range-IsValid (f * 4096) 4096 free s v (omega arith) (omega (arith, v.small)) word
        unused (ground arith)

  found-permanent :
      result.result ≢ no_more_region_slots
      → is_some (pmm_is_region_reserved result.table (f * 4096) 4096) ≡ true
  found-permanent room =
      (is_region_reserved-Meets (f * 4096) 4096 (omega arith) result.table).1
        (f * 4096, omega arith, omega arith, ground (arith, found-covers (f * 4096) room))

  found-Reserves :
      can_reserve s f ≡ true
      → result.result ≢ no_more_region_slots
      → Reserves f s (mark_reserved clear f after)
  found-Reserves can room =
      let sound = found-IsSound room in
      let q = sound.region in
      let state = reserved_state (f * 4096) 4096 0 s v (omega arith) q sound.entry sound.takes in
      let free = can_reserve-free s f lt v.small can in
      let same_count : after.frame_count ≡ s.frame_count =
        rw state (
          set_frames-frame_count (touched_count q.base q.length s.frame_count) (q.base / 4096) s) in
      let same_table : after.mem_regions ≡ result.table = rw state refl in
      let lt' : f < after.frame_count = rw same_count lt in
      record {
        in_bounds = lt;
        was_free = free.0;
        was_unreserved = free.1;
        permanent =
            rw (mark_reserved-mem_regions clear f after after-IsValid lt', same_table)
              (found-permanent room);
        taken = λ g lg. ground (
          arith,
          mark_reserved-test_bit clear f after after-IsValid lt' g,
          range_bits f s v lt g sound lg,
        );
        valid = mark_reserved-IsValid clear f after after-IsValid lt';
      }

-- The outcomes of `pmm_reserve_pageframe`.
abbrev pub MeetsSpec : Pmm → PagingStatus × ℕ × Pmm → Type 0
MeetsSpec s (r, a, s') =
    ((f : ℕ) × (r ≡ paging_ok) × (a ≡ f * 4096) × Reserves f s s')
    ⊎ (((r ≡ err_nomem) × (s' ≡ s) × (s.available_frames ≡ 0))
        ⊎ ((r ≡ err_frame_reserve_failed) × (s' ≡ s) × (mem_regions_max ≤ length s.mem_regions)))

module _ (clear : Bool) (free : ℕ) (s : Pmm) (v : IsValid s) (beyond : s.frame_count * 4096 ≤ free)
    (word : free < 2 ^ 32) (unused : covers free s.mem_regions ≡ false) where
  none_left :
      find_from (can_reserve s) s.frame_count s.frame_count s.frame_hint ≡ none
      → s.available_frames ≡ 0
  none_left e =
      v.counted
      ∙ count_clear-full s.pagebitmap s.frame_count λ g lg.
        cannot_reserve-taken s v g lg
          (find_from-covers (can_reserve s) s.frame_count s.frame_hint g v.hint lg e)

  reserve_found-MeetsSpec :
      (f : ℕ) → f < s.frame_count → can_reserve s f ≡ true → MeetsSpec s (reserve_found clear f s)
  unfolding reserve_found
  reserve_found-MeetsSpec f lt can =
      let exact : frame_address f ≡ f * 4096 = omega (arith, v.small) in
      elim (slots-cases (reserve_table (f * 4096) 4096 s.mem_regions).result) [
        | inl full ↦
            let same = reserve_range-full (f * 4096) 4096 s (omega arith) full in
            let crowded = reserve_table-no_room (f * 4096) 4096 s.mem_regions (omega arith) full in
            rw (exact, reserve_found) (rw same (inr (inr (refl, refl, crowded))))
        | inr room ↦
            let ok =
              reserve_table-is_reservation (f * 4096) 4096 s.mem_regions (omega arith) room in
            rw (exact, reserve_found)
              (rw (reserve_range-result (f * 4096) 4096 s, ok)
                (inl
                  (f, refl, refl, found-Reserves clear f free s v lt beyond word unused can room)))
      ]

  -- `pmm_reserve_pageframe` in a valid state: it takes a free frame that no region meets and
  -- reserves it for good, no other frame changing; or no frame is free; or all slots of the table of
  -- regions are in use. In the last two cases nothing changes. Some address below 4 GiB, behind the
  -- frames of the bitmap, is not reserved.
  pub reserve_pageframe-MeetsSpec : MeetsSpec s (pmm_reserve_pageframe clear s)
  unfolding pmm_reserve_pageframe
  reserve_pageframe-MeetsSpec =
      elim (Option-cases (find_from (can_reserve s) s.frame_count s.frame_count s.frame_hint)) [
        | inl full ↦ rw (full, pmm_reserve_pageframe) (inr (inl (refl, refl, none_left full)))
        | inr (f, e) ↦
            rw (e, pmm_reserve_pageframe)
              (reserve_found-MeetsSpec f
                (find_from-lt (can_reserve s) s.frame_count s.frame_count s.frame_hint f v.hint e)
                (find_from-passes (can_reserve s) s.frame_count s.frame_count s.frame_hint f e))
      ]
