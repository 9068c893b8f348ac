-- ===== src/Pmm/Reserve/Guard.antt =====
-- `pmm_reserve_range` with `init` marks every frame that the range meets, so that no reserved frame
-- is free afterwards; `pmm_reserve_pageframe` keeps a valid state valid.
use unidos.Base.{
  ℕ, ◌+◌, ◌-◌, ◌*◌, ◌/◌, ◌^◌, ◌≤◌, ◌<◌, ◌≡◌, ◌≢◌, refl, min, true, false, arith, ◌||◌, Bool-cases,
  inl, inr, List, some, ◌⊎◌, ◌∙◌,
}
use unidos.Pmm.Regions.{
  MemRegion, is_reserved, reserve_table, no_more_region_slots, PmmReserveResult,
}
use unidos.Pmm.Regions.Covers.{covers}
use unidos.Pmm.Regions.Table.{in_range, reserve_table-covers}
use unidos.Pmm.Regions.Entry.{Takes, reserve_table-IsSound, reserve_table-full}
use native.Mathlib.Decide.{dec_lt}
use unidos.Pmm.Regions.Overlap.{is_region_reserved-Meets}
use unidos.Pmm.State.{Pmm, frame_address}
use unidos.Pmm.State.Invariant.{IsValid, Guarded}
use unidos.Pmm.Reserve.{set_frames, pmm_init_single, pmm_reserve_range}
use unidos.Pmm.Reserve.Frames.{
  in_frames, set_frames-test_bit, set_frames-with_regions, set_frames-IsValid,
  set_frames-frame_count, bm_set_range_touched-frames,
}

-- A frame that meets the range of an entry is among those that `bm_set_range_touched` marks.
pub touched-in_frames :
    (base len f x n : ℕ)
    → f < n
    → f * 4096 ≤ x
    → x < f * 4096 + 4096
    → base ≤ x
    → x < base + len
    → in_frames f (base / 4096) (min ((base + len + 0xfff) / 4096) n - base / 4096) ≡ true
touched-in_frames base len f x n lt lo hi bx xb = ground arith

unfoldable pub touched_count : ℕ → ℕ → ℕ → ℕ
touched_count base len n = min ((base + len + 0xfff) / 4096) n - base / 4096

touched-IsValid :
    (base len : ℕ) (s : Pmm)
    → IsValid s
    → IsValid (set_frames (touched_count base len s.frame_count) (base / 4096) s)
unfolding touched_count set_frames
touched-IsValid base len s v = elim (dec_lt (base / 4096) s.frame_count) [
  | yes inside ↦
      set_frames-IsValid (touched_count base len s.frame_count) (base / 4096) s v (omega arith)
  | no outside ↦
      let nothing : touched_count base len s.frame_count ≡ 0 = omega arith in rw nothing v
]

init_single-frames :
    (q : MemRegion) (s : Pmm)
    → s.bitmap_ready ≡ true
    → s.frame_hint < s.frame_count
    → is_reserved q.type ≡ true
    → 0 < q.length
    → pmm_init_single q s
      ≡ set_frames (touched_count q.base q.length s.frame_count) (q.base / 4096) s
unfolding pmm_init_single touched_count
init_single-frames q s ready some_frames kind live =
    ground (arith, bm_set_range_touched-frames q.base q.length s live)

pub slots-cases : (r : PmmReserveResult) → (r ≡ no_more_region_slots) ⊎ (r ≢ no_more_region_slots)
slots-cases no_more_region_slots = inl refl
slots-cases _ = inr (λ e. cc)

module _ (base len free : ℕ) (s : Pmm) (v : IsValid s) (pos : 0 < len) where
  Guarded-after :
      (q : MemRegion) (table : List MemRegion)
      → Takes base len q
      → ((x : ℕ) → covers x table ≡ (covers x s.mem_regions || in_range x base len))
      → Guarded
          (record (set_frames (touched_count q.base q.length s.frame_count) (q.base / 4096) s) {
            mem_regions = table;
          })
  unfolding touched_count
  Guarded-after q table takes known f lt met =
      let n = touched_count q.base q.length s.frame_count in
      let in_count : f < s.frame_count = rw (set_frames-frame_count n (q.base / 4096) s) at lt in
      let exact : frame_address f ≡ f * 4096 = omega (arith, v.small) in
      let (x, lo, hi, c) =
        (is_region_reserved-Meets (frame_address f) 4096 (omega arith) table).0 met in
      let marked = set_frames-test_bit n (q.base / 4096) s f v.bytes in
      elim (Bool-cases (in_range x base len)) [
        | inl fresh ↦
            let hit =
              touched-in_frames q.base q.length f x s.frame_count in_count (omega arith)
                (omega arith) (ground (arith, takes)) (ground (arith, takes)) in
            rw (marked, hit) refl
        | inr old ↦
            let before : covers x s.mem_regions ≡ true = ground (arith, known x) in
            let was =
              (is_region_reserved-Meets (frame_address f) 4096 (omega arith) s.mem_regions).1
                (x, lo, hi, before) in
            let taken = v.guarded f in_count was in ground (arith, marked, taken)
      ]

  -- A reservation that succeeds: the state written out.
  pub reserved_state :
      (q : MemRegion)
      → (reserve_table base len s.mem_regions).entry ≡ some q
      → Takes base len q
      → (pmm_reserve_range base len true s).1
        ≡ record (set_frames (touched_count q.base q.length s.frame_count) (q.base / 4096) s) {
          mem_regions = (reserve_table base len s.mem_regions).table;
        }
  unfolding pmm_reserve_range touched_count
  reserved_state q e takes =
      let table = (reserve_table base len s.mem_regions).table in
      let live : 0 < q.length = omega (arith, takes.lower, takes.upper) in
      rw (e, pmm_reserve_range)
        (init_single-frames q (record s { mem_regions = table }) v.ready v.hint takes.kind live
          ∙ set_frames-with_regions (touched_count q.base q.length s.frame_count) (q.base / 4096) s
              table)

  -- `pmm_reserve_range` with `init` keeps a valid state valid: afterwards too every frame that meets
  -- a reserved region is taken, and the count of available frames is exact. The range is not
  -- empty and ends by 4 GiB, and some address below is neither in it nor reserved.
  pub reserve_range-IsValid :
      base + len ≤ 2 ^ 32
      → free < 2 ^ 32
      → covers free s.mem_regions ≡ false
      → in_range free base len ≡ false
      → IsValid (pmm_reserve_range base len true s).1
  unfolding pmm_reserve_range
  reserve_range-IsValid fits lt e o =
      let out = reserve_table base len s.mem_regions in
      elim (slots-cases out.result) [
        | inl full ↦
            let same = reserve_table-full base len s.mem_regions pos full in
            rw (same.1, pmm_reserve_range) (rw same.0 v)
        | inr room ↦
            let sound =
              reserve_table-IsSound base len fits s.mem_regions free pos v.below lt e o room in
            let q = sound.region in
            let marked = touched-IsValid q.base q.length s v in
            let known = λ (x : ℕ).
              reserve_table-covers base len s.mem_regions free x pos fits v.below lt e o room in
            rw (reserved_state q sound.entry sound.takes) (record {
              ready = marked.ready;
              bytes = marked.bytes;
              small = marked.small;
              hint = marked.hint;
              counted = marked.counted;
              below = sound.below;
              guarded = Guarded-after q out.table sound.takes known;
            })
      ]
