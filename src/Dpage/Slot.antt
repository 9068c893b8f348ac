-- ===== src/Dpage/Slot.antt =====
-- The bits of the pool's slots in `dpage_alloc` of `kernel/dpage.c` and the inline functions of
-- `kernel/include/dpage.h`.
use unidos.Base.{
  ℕ, zero, suc, ◌+◌, ◌-◌, ◌≤◌, ◌<◌, ◌≡◌, ◌≢◌, refl, arith, true, false, ◌==◌, if◌then◌else◌, Option,
  none, some, Option-cases, Bool-cases, inl, inr, ◌⊎◌, u32,
}
use unidos.Bitmap.Bits.{
  Bytes, AreBytes, test_bit, test_bit-set, test_bit-clear, set_bit-AreBytes, clear_bit-AreBytes,
}
use unidos.Paging.{Paging, page_of}
use unidos.Dpage.{
  DpageStatus, dpage_success, no_more_region_slots, Pool, slot_count, Heap, dpage_bm_set,
  dpage_bm_clear, dpage_bm_slot_to_vaddr, find_slot, dpage_alloc, commit_pages, commit_slot, settle,
  Round, page_round, demand_map, second_round, release_page, kept_as_is, pmm_init_failed,
  pg_init_failed,
}

module _ (bitmap : Bytes) where
  find_slot-free : (n slot s : ℕ) → find_slot bitmap n slot ≡ some s → test_bit bitmap s ≡ false
  unfolding find_slot
  find_slot-free zero slot s e = absurd cc
  find_slot-free (suc n) slot s e = ground (arith, find_slot-free n (slot + 1) s)

  pub find_slot-lt : (n slot s : ℕ) → find_slot bitmap n slot ≡ some s → (slot ≤ s) × (s < slot + n)
  unfolding find_slot
  find_slot-lt zero slot s e = absurd cc
  find_slot-lt (suc n) slot s e = ground (arith, find_slot-lt n (slot + 1) s)

  find_slot-first :
      (n slot s j : ℕ)
      → find_slot bitmap n slot ≡ some s
      → slot ≤ j
      → j < s
      → test_bit bitmap j ≡ true
  unfolding find_slot
  find_slot-first zero slot s j e le lt = absurd cc
  find_slot-first (suc n) slot s j e le lt = ground (arith, find_slot-first n (slot + 1) s j)

  find_slot-none :
      (n slot j : ℕ)
      → find_slot bitmap n slot ≡ none
      → slot ≤ j
      → j < slot + n
      → test_bit bitmap j ≡ true
  unfolding find_slot
  find_slot-none zero slot j e le lt = absurd (omega arith)
  find_slot-none (suc n) slot j e le lt = ground (arith, find_slot-none n (slot + 1) j)

-- The slot `s` was the first free one; its bit, and no other, has been set.
pub record Takes (k : Pool) (s : ℕ) (h h' : Heap) : Type 0 where
  pub in_pool : s < slot_count k
  pub was_free : test_bit h.bitmap s ≡ false
  pub first : (j : ℕ) → j < s → test_bit h.bitmap j ≡ true
  pub taken : (j : ℕ) → test_bit h'.bitmap j ≡ (if j == s then true else test_bit h.bitmap j)
  pub bytes : AreBytes h'.bitmap

-- No bit differs from before; and where the status says so, all were set.
pub record Refuses (k : Pool) (st : DpageStatus) (h h' : Heap) : Type 0 where
  pub same_bits : (j : ℕ) → test_bit h'.bitmap j ≡ test_bit h.bitmap j
  pub all_taken :
      st ≡ no_more_region_slots → (j : ℕ) → j < slot_count k → test_bit h.bitmap j ≡ true
  pub bytes : AreBytes h'.bitmap

abbrev pub MeetsSlots : Pool → Heap → DpageStatus × Option ℕ × Heap → Type 0
MeetsSlots k h (st, o, h') =
    ((s : ℕ) × (st ≡ dpage_success)
      × (o ≡ some (dpage_bm_slot_to_vaddr s k.vaddr_base k.element_size))
      × Takes k s h h')
    ⊎ ((st ≢ dpage_success) × (o ≡ none) × Refuses k st h h')

page_round-status :
    (u v : Paging → Paging) (page : ℕ) (p : Paging)
    → (page_round u v page p).status ≢ no_more_region_slots
unfolding page_round demand_map
page_round-status u v page p = λ e. ground (arith, e)

second_round-status :
    (first second : ℕ) (r : Round)
    → r.status ≢ no_more_region_slots
    → (second_round first second r).status ≢ no_more_region_slots
unfolding second_round
second_round-status first second r d = λ e. ground (
  arith,
  e,
  page_round-status (release_page first) (if r.mapped then release_page first else kept_as_is)
      second r.paging,
)

commit_pages-status :
    (k : Pool) (vaddr : ℕ) (p : Paging) → (commit_pages k vaddr p).status ≢ no_more_region_slots
unfolding commit_pages
commit_pages-status k vaddr p =
    let first = page_of vaddr in
    let second = page_of (u32 (vaddr + k.element_size - 1)) in
    let one = page_round-status kept_as_is kept_as_is first p in
    elim (Bool-cases (second == first)) [
      | inl c ↦ rw c one
      | inr c ↦
          rw c (second_round-status first second (page_round kept_as_is kept_as_is first p) one)
    ]

module _ (k : Pool) (h : Heap) where
  pub alloc-found :
      (s : ℕ) → find_slot h.bitmap (slot_count k) 0 ≡ some s → dpage_alloc k h ≡ commit_slot k s h
  unfolding dpage_alloc
  alloc-found s found = ground (arith, found)

  pub alloc-none :
      find_slot h.bitmap (slot_count k) 0 ≡ none → dpage_alloc k h ≡ (no_more_region_slots, none, h)
  unfolding dpage_alloc
  alloc-none e = ground (arith, e)

module _ (k : Pool) (h : Heap) (bytes : AreBytes h.bitmap) where
  module _ (s : ℕ) (found : find_slot h.bitmap (slot_count k) 0 ≡ some s) where
    abbrev marked : Bytes
    marked = dpage_bm_set s h.bitmap k.bitmap_size_bytes

    lt : s < slot_count k
    lt = ground (arith, find_slot-lt h.bitmap (slot_count k) 0 s found)

    bm_set-bit : (j : ℕ) → test_bit marked j ≡ (if j == s then true else test_bit h.bitmap j)
    unfolding dpage_bm_set
    bm_set-bit j = ground (arith, lt, test_bit-set h.bitmap bytes s j)

    bm_set-AreBytes : AreBytes marked
    unfolding dpage_bm_set
    bm_set-AreBytes i = ground (arith, bytes i, set_bit-AreBytes h.bitmap s bytes i)

    bm_clear-bit :
        (j : ℕ) → test_bit (dpage_bm_clear s marked k.bitmap_size_bytes) j ≡ test_bit h.bitmap j
    unfolding dpage_bm_clear
    bm_clear-bit j = ground (
      arith,
      lt,
      test_bit-clear marked bm_set-AreBytes s j,
      bm_set-bit j,
      find_slot-free h.bitmap (slot_count k) 0 s found,
    )

    bm_clear-AreBytes : AreBytes (dpage_bm_clear s marked k.bitmap_size_bytes)
    unfolding dpage_bm_clear
    bm_clear-AreBytes i =
        ground (arith, bm_set-AreBytes i, clear_bit-AreBytes marked s bm_set-AreBytes i)

    taken-Takes : (q : Paging) → Takes k s h (record { bitmap = marked; paging = q })
    taken-Takes q = record {
      in_pool = lt;
      was_free = find_slot-free h.bitmap (slot_count k) 0 s found;
      first = λ j lj. find_slot-first h.bitmap (slot_count k) 0 s j found (omega arith) lj;
      taken = bm_set-bit;
      bytes = bm_set-AreBytes;
    }

    cleared-Refuses :
        (st : DpageStatus) (q : Paging)
        → st ≢ no_more_region_slots
        → Refuses k st h
            (record { bitmap = dpage_bm_clear s marked k.bitmap_size_bytes; paging = q })
    cleared-Refuses st q d = record {
      same_bits = bm_clear-bit;
      all_taken = λ e. absurd (d e);
      bytes = bm_clear-AreBytes;
    }

    -- Whatever the rounds over the pages have come to.
    settle-MeetsSlots :
        (st : DpageStatus) (q : Paging)
        → st ≢ no_more_region_slots
        → MeetsSlots k h
            (settle k s marked (dpage_bm_slot_to_vaddr s k.vaddr_base k.element_size) st q)
    unfolding settle
    settle-MeetsSlots dpage_success q d = inl (s, refl, refl, taken-Takes q)
    settle-MeetsSlots pmm_init_failed q d = inr (λ e. cc, refl, cleared-Refuses pmm_init_failed q d)
    settle-MeetsSlots pg_init_failed q d = inr (λ e. cc, refl, cleared-Refuses pg_init_failed q d)
    settle-MeetsSlots no_more_region_slots q d = absurd (d refl)

  -- `dpage_alloc` hands out the first free slot of the pool, at the address that belongs to it, and
  -- sets its bit and no other; or it fails, for want of a frame, of a page table or of a slot, and
  -- every bit is as it was; it says that there is no slot only where all are taken. The bitmap holds
  -- bytes.
  pub dpage_alloc-MeetsSlots : MeetsSlots k h (dpage_alloc k h)
  dpage_alloc-MeetsSlots = elim (Option-cases (find_slot h.bitmap (slot_count k) 0)) [
    | inl e ↦ rw (alloc-none k h e) (
        inr (
          λ q. cc,
          refl,
          record {
            same_bits = λ j. refl;
            all_taken =
                λ q j lj. find_slot-none h.bitmap (slot_count k) 0 j e (omega arith) (omega arith);
            bytes = bytes;
          },
        ))
    | inr (s, e) ↦
        let vaddr = dpage_bm_slot_to_vaddr s k.vaddr_base k.element_size in
        let r = commit_pages k vaddr h.paging in
        rw (alloc-found k h s e)
          (settle-MeetsSlots s e r.status r.paging (commit_pages-status k vaddr h.paging))
  ]
