-- ===== src/Pmm/Alloc/Specific.antt =====
-- `pmm_alloc_specific_block` and `pmm_dealloc_specific_block`.
use unidos.Base.{
  ℕ, ◌+◌, ◌*◌, ◌/◌, ◌%◌, ◌^◌, ◌<◌, ◌≡◌, ◌≢◌, refl, true, false, arith, ◌==◌, if◌then◌else◌, inl,
  inr, ◌⊎◌, ◌↔◌,
}
use unidos.Bitmap.Bits.{test_bit, test_bit-set, test_bit-clear}
use unidos.Bitmap.Count.{count_clear-clear, count_clear-set}
use unidos.Pmm.State.{
  Pmm, PmmAllocResult, alloc_success, bm_set, bm_clear, frame_address, frame_reserved,
  pmm_query_bitmap,
}
use unidos.Pmm.State.Invariant.{IsValid, bm_set-IsValid, bm_clear-IsValid, hint-IsValid}
use unidos.Pmm.Alloc.{
  pmm_get_next_available_block, pmm_alloc_specific_block, pmm_dealloc_specific_block,
}
use unidos.Pmm.Alloc.Block.{Grants, get_next_available_block-MeetsSpec}

-- Frame `f`, taken until then, is given back, and no other changes; the next search begins there.
pub record Returns (f : ℕ) (s s' : Pmm) : Type 0 where
  pub in_bounds : f < s.frame_count
  pub was_taken : test_bit s.pagebitmap f ≡ true
  pub freed :
      (g : ℕ) → test_bit s'.pagebitmap g ≡ (if g == f then false else test_bit s.pagebitmap g)
  pub more : s'.available_frames ≡ s.available_frames + 1
  pub regions : s'.mem_regions ≡ s.mem_regions
  pub hint : s'.frame_hint ≡ f
  pub valid : IsValid s'

alloc_success-cases : (r : PmmAllocResult) → (r ≡ alloc_success) ⊎ (r ≢ alloc_success)
alloc_success-cases alloc_success = inl refl
alloc_success-cases _ = inr (λ e. cc)

module _ (s : Pmm) (address : ℕ) (v : IsValid s) (word : address < 2 ^ 32) where
  query_bitmap-test_bit :
      address % 4096 ≡ 0
      → address / 4096 < s.frame_count
      → pmm_query_bitmap s address ≡ test_bit s.pagebitmap (address / 4096)
  unfolding pmm_query_bitmap
  query_bitmap-test_bit aligned lt = ground arith

  address-eq : address % 4096 ≡ 0 → frame_address (address / 4096) ≡ address
  address-eq aligned = omega arith

  -- `pmm_alloc_specific_block` succeeds exactly when the address is aligned, its frame exists and
  -- is free. (A frame that a reserved region meets is never free.)
  pub alloc_specific_block-success : ((pmm_alloc_specific_block s address).0 ≡ alloc_success) ↔ (
      (address % 4096 ≡ 0)
      × (address / 4096 < s.frame_count)
      × (test_bit s.pagebitmap (address / 4096) ≡ false))
  unfolding pmm_alloc_specific_block
  alloc_specific_block-success =
      ground (arith, query_bitmap-test_bit, address-eq, v.guarded (address / 4096))

  alloc_specific_block-fails :
      (pmm_alloc_specific_block s address).0 ≢ alloc_success
      → (pmm_alloc_specific_block s address).1 ≡ s
  unfolding pmm_alloc_specific_block
  alloc_specific_block-fails e = ground arith

  alloc_specific_block-sets :
      (pmm_alloc_specific_block s address).0 ≡ alloc_success
      → (pmm_alloc_specific_block s address).1 ≡ bm_set (address / 4096) s
  unfolding pmm_alloc_specific_block
  alloc_specific_block-sets e = ground arith

  bm_set-Grants :
      address % 4096 ≡ 0
      → address / 4096 < s.frame_count
      → test_bit s.pagebitmap (address / 4096) ≡ false
      → Grants (address / 4096) s (bm_set (address / 4096) s)
  unfolding bm_set
  bm_set-Grants aligned lt e =
      let valid = bm_set-IsValid s (address / 4096) v lt in
      record {
        in_bounds = lt;
        was_free = e;
        unreserved = ground (arith, v.guarded (address / 4096));
        taken = test_bit-set s.pagebitmap v.bytes (address / 4096);
        fewer = omega (
          arith,
          v.counted,
          valid.counted,
          count_clear-set s.pagebitmap v.bytes (address / 4096) s.frame_count lt e,
        );
        regions = refl;
        frames = refl;
        memory = refl;
        valid = valid;
      }

  -- On success the frame of the address, and no other, is taken; on every failure nothing changes.
  -- The state stays valid.
  pub alloc_specific_block-effect :
      let (r, s') = pmm_alloc_specific_block s address in
      ((r ≡ alloc_success) × Grants (address / 4096) s s') ⊎ ((r ≢ alloc_success) × (s' ≡ s))
  alloc_specific_block-effect = elim (alloc_success-cases (pmm_alloc_specific_block s address).0) [
    | inl done ↦
        let when = alloc_specific_block-success.0 done in
        inl (done, rw (alloc_specific_block-sets done) (bm_set-Grants when.0 when.1 when.2))
    | inr failed ↦ inr (failed, alloc_specific_block-fails failed)
  ]

  -- `pmm_dealloc_specific_block` succeeds exactly when the address is aligned and its frame exists,
  -- is taken and lies in no reserved region.
  pub dealloc_specific_block-success :
      ((pmm_dealloc_specific_block s address).0 ≡ alloc_success) ↔ (
        (address % 4096 ≡ 0)
        × (address / 4096 < s.frame_count)
        × (frame_reserved s address ≡ false)
        × (test_bit s.pagebitmap (address / 4096) ≡ true))
  unfolding pmm_dealloc_specific_block
  dealloc_specific_block-success = ground (arith, query_bitmap-test_bit, v.hint, v.ready)

  dealloc_specific_block-fails :
      (pmm_dealloc_specific_block s address).0 ≢ alloc_success
      → (pmm_dealloc_specific_block s address).1 ≡ s
  unfolding pmm_dealloc_specific_block
  dealloc_specific_block-fails e = ground arith

  dealloc_specific_block-clears :
      (pmm_dealloc_specific_block s address).0 ≡ alloc_success
      → (pmm_dealloc_specific_block s address).1
        ≡ bm_clear (address / 4096) (record s { frame_hint = address / 4096 })
  unfolding pmm_dealloc_specific_block
  dealloc_specific_block-clears e = ground arith

  bm_clear-Returns :
      address % 4096 ≡ 0
      → address / 4096 < s.frame_count
      → frame_reserved s address ≡ false
      → test_bit s.pagebitmap (address / 4096) ≡ true
      → Returns
          (address / 4096)
          s
          (bm_clear (address / 4096) (record s { frame_hint = address / 4096 }))
  unfolding bm_clear
  bm_clear-Returns aligned lt out e =
      let hinted = record s { frame_hint = address / 4096 } in
      let valid =
        bm_clear-IsValid hinted (address / 4096) (hint-IsValid s (address / 4096) v lt) lt
          (rw (address-eq aligned) out) in
      record {
        in_bounds = lt;
        was_taken = e;
        freed = test_bit-clear s.pagebitmap v.bytes (address / 4096);
        more = omega (
          arith,
          v.counted,
          valid.counted,
          count_clear-clear s.pagebitmap v.bytes (address / 4096) s.frame_count lt e,
        );
        regions = refl;
        hint = refl;
        valid = valid;
      }

  -- On success the frame of the address, and no other, is free again and the next search begins
  -- there; on every failure nothing changes. The state stays valid.
  pub dealloc_specific_block-effect :
      let (r, s') = pmm_dealloc_specific_block s address in
      ((r ≡ alloc_success) × Returns (address / 4096) s s') ⊎ ((r ≢ alloc_success) × (s' ≡ s))
  dealloc_specific_block-effect =
      elim (alloc_success-cases (pmm_dealloc_specific_block s address).0) [
        | inl done ↦
            let when = dealloc_specific_block-success.0 done in
            inl (
              done,
              rw (dealloc_specific_block-clears done)
                  (bm_clear-Returns when.0 when.1 when.2 when.3),
            )
        | inr failed ↦ inr (failed, dealloc_specific_block-fails failed)
      ]

-- A granted frame meets the conditions for giving it back.
Grants-Returns :
    (f : ℕ) (s s' : Pmm)
    → IsValid s
    → Grants f s s'
    → let (r, t) = pmm_dealloc_specific_block s' (f * 4096) in (r ≡ alloc_success) × Returns f s' t
Grants-Returns f s s' v g =
    let exact : frame_address f ≡ f * 4096 = omega (arith, v.small, g.in_bounds) in
    let index : f * 4096 / 4096 ≡ f = omega arith in
    let word : f * 4096 < 2 ^ 32 = omega (arith, v.small, g.in_bounds) in
    let out : frame_reserved s' (f * 4096) ≡ false = rw (g.regions, ← exact) g.unreserved in
    let ok =
      (dealloc_specific_block-success s' (f * 4096) g.valid word).1 (
        omega arith,
        rw (index, g.frames) g.in_bounds,
        out,
        rw index (ground (arith, g.taken f)),
      ) in
    elim (dealloc_specific_block-effect s' (f * 4096) g.valid word) [
      | inl (done, back) ↦ (done, rw index at back)
      | inr (failed, same) ↦ absurd (failed ok)
    ]

module _ (s : Pmm) (f : ℕ) (v : IsValid s) where
  get_next_available_block-Grants :
      (pmm_get_next_available_block s).0 ≡ alloc_success
      → (pmm_get_next_available_block s).1 ≡ f * 4096
      → Grants f s (pmm_get_next_available_block s).2
  get_next_available_block-Grants ok address = elim (get_next_available_block-MeetsSpec s v) [
    | inl (g, done, exact, granted) ↦
        let here : g ≡ f = omega (arith, exact, address) in rw here at granted
    | inr (full, a, same, zero_left) ↦ absurd (cc)
  ]

  -- A frame that has been granted can be given back, and that restores every bit of the bitmap and
  -- the count of available frames.
  pub dealloc-get_next_available_block :
      (pmm_get_next_available_block s).0 ≡ alloc_success
      → (pmm_get_next_available_block s).1 ≡ f * 4096
      → let (r, s') = pmm_dealloc_specific_block (pmm_get_next_available_block s).2 (f * 4096) in
        (r ≡ alloc_success)
        × ((g : ℕ) → test_bit s'.pagebitmap g ≡ test_bit s.pagebitmap g)
        × (s'.available_frames ≡ s.available_frames)
        × IsValid s'
  dealloc-get_next_available_block ok address =
      let granted = get_next_available_block-Grants ok address in
      let (done, back) = Grants-Returns f s (pmm_get_next_available_block s).2 v granted in
      (
        done,
        λ g. ground (arith, granted.was_free, granted.taken g, back.freed g),
        omega (arith, granted.fewer, back.more),
        back.valid,
      )
