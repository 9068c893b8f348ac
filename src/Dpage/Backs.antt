-- ===== src/Dpage/Backs.antt =====
-- The pages under a slot that `dpage_alloc` of `kernel/dpage.c` hands out: all rounds together.
use unidos.Base.{
  ℕ, ◌+◌, ◌-◌, ◌*◌, ◌/◌, ◌^◌, ◌≤◌, ◌<◌, ◌≡◌, refl, ◌∙◌, arith, true, false, ◌==◌, if◌then◌else◌,
  some, Option-cases, Bool-cases, inl, inr, u32,
}
use unidos.Bitmap.Bits.{Bytes}
use unidos.Paging.{Paging, is_present, page_of}
use unidos.Paging.Tables.{IsWellFormed, entry_at}
use unidos.Dpage.Slot.{alloc-found, alloc-none, find_slot-lt}
use unidos.Dpage.{
  DpageStatus, pg_init_failed, no_more_region_slots, dpage_bm_set, dpage_success, pmm_init_failed,
  Pool, Heap, Round, page_round, second_round, commit_pages, kept_as_is, release_page, dpage_alloc,
  settle, find_slot, slot_count, dpage_bm_slot_to_vaddr,
}
use unidos.Dpage.Commit.{Commits, page_round-Commits, entry_at-page}

module _ (first second : ℕ) (r : Round) where
  pub second_round-success :
      r.status ≡ dpage_success
      → second_round first second r
        ≡ page_round
            (release_page first)
            (if r.mapped then release_page first else kept_as_is)
            second
            r.paging
  unfolding second_round
  second_round-success e = ground (arith, e)

  second_round-fine :
      (second_round first second r).status ≡ dpage_success → r.status ≡ dpage_success
  unfolding second_round
  second_round-fine e = ground (arith, e)

-- The pages of the first and the last byte of the slot are mapped, and what was mapped still is.
pub record Backs (k : Pool) (vaddr : ℕ) (p q : Paging) : Type 0 where
  pub well_formed : IsWellFormed q
  pub backed : (v : ℕ) → vaddr ≤ v → v < vaddr + k.element_size → is_present (entry_at q v) ≡ true
  pub kept : (v : ℕ) → v < 2 ^ 32 → is_present (entry_at p v) ≡ true → entry_at q v ≡ entry_at p v

module _ (k : Pool) (vaddr : ℕ) (p : Paging) (w : IsWellFormed p) (some_bytes : 0 < k.element_size)
    (page_at_most : k.element_size ≤ 4096) (room : vaddr + k.element_size ≤ 2 ^ 32) where
  abbrev first_page : ℕ
  first_page = page_of vaddr

  abbrev last_page : ℕ
  last_page = page_of (u32 (vaddr + k.element_size - 1))

  -- Every byte of the slot lies in one of the two pages.
  bytes-Backs :
      (q : Paging)
      → IsWellFormed q
      → is_present (entry_at q first_page) ≡ true
      → is_present (entry_at q last_page) ≡ true
      → ((v : ℕ) → v < 2 ^ 32 → is_present (entry_at p v) ≡ true → entry_at q v ≡ entry_at p v)
      → Backs k vaddr p q
  bytes-Backs q wq one two kept = record {
    well_formed = wq;
    backed = λ v le lt. elim (Bool-cases (v / 4096 == vaddr / 4096)) [
      | inl c ↦ rw (entry_at-page q v first_page (ground arith)) one
      | inr c ↦ rw (entry_at-page q v last_page (ground arith)) two
    ];
    kept = kept;
  }

  abbrev first_round : Round
  first_round = page_round kept_as_is kept_as_is first_page p

  abbrev both_rounds : Round
  both_rounds = second_round first_page last_page first_round

  second_round-Backs :
      Commits first_page p first_round.paging
      → first_round.status ≡ dpage_success
      → both_rounds.status ≡ dpage_success
      → Backs k vaddr p both_rounds.paging
  second_round-Backs one fine ok =
      let undo = if first_round.mapped then release_page first_page else kept_as_is in
      let is = second_round-success first_page last_page first_round fine in
      let two =
        page_round-Commits (release_page first_page) undo last_page (omega arith) first_round.paging
          one.well_formed (rw is at ok) in
      rw is (
        bytes-Backs _ two.well_formed
          (rw (two.kept first_page (omega arith) one.present) one.present) two.present
          (λ v lv on. let e = one.kept v lv on in two.kept v lv (rw e on) ∙ e))

  commit_pages-one : (last_page == first_page) ≡ true → commit_pages k vaddr p ≡ first_round
  unfolding commit_pages
  commit_pages-one c = rw c refl

  pub commit_pages-two : (last_page == first_page) ≡ false → commit_pages k vaddr p ≡ both_rounds
  unfolding commit_pages
  commit_pages-two c = rw c refl

  commit_pages-Backs :
      (commit_pages k vaddr p).status ≡ dpage_success
      → Backs k vaddr p (commit_pages k vaddr p).paging
  commit_pages-Backs ok = elim (Bool-cases (last_page == first_page)) [
    | inl c ↦
        let is = commit_pages-one c in
        let one =
          page_round-Commits kept_as_is kept_as_is first_page (omega arith) p w (rw is at ok) in
        let same : last_page ≡ first_page = ground arith in
        rw is (bytes-Backs _ one.well_formed one.present (rw same one.present) one.kept)
    | inr c ↦
        let is = commit_pages-two c in
        let fine = second_round-fine first_page last_page first_round (rw is at ok) in
        let one = page_round-Commits kept_as_is kept_as_is first_page (omega arith) p w fine in
        rw is (second_round-Backs one fine (rw is at ok))
  ]

-- The slots of the pool lie below `2 ^ 32`, and none is larger than a page.
pub record Fits (k : Pool) : Type 0 where
  pub some_bytes : 0 < k.element_size
  pub page_at_most : k.element_size ≤ 4096
  pub room :
      (s : ℕ) → s < slot_count k → k.vaddr_base + s * k.element_size + k.element_size ≤ 2 ^ 32

settle-some :
    (k : Pool) (s : ℕ) (bitmap : Bytes) (addr : ℕ) (st : DpageStatus) (q : Paging) (vaddr : ℕ)
    → (settle k s bitmap addr st q).1 ≡ some vaddr
    → (st ≡ dpage_success) × (addr ≡ vaddr) × ((settle k s bitmap addr st q).2.paging ≡ q)
unfolding settle
settle-some k s bitmap addr dpage_success q vaddr e = (refl, ground arith, refl)
settle-some k s bitmap addr pmm_init_failed q vaddr e = absurd cc
settle-some k s bitmap addr pg_init_failed q vaddr e = absurd cc
settle-some k s bitmap addr no_more_region_slots q vaddr e = absurd cc

slot-vaddr :
    (k : Pool) (s : ℕ)
    → 0 < k.element_size
    → k.vaddr_base + s * k.element_size + k.element_size ≤ 2 ^ 32
    → dpage_bm_slot_to_vaddr s k.vaddr_base k.element_size ≡ k.vaddr_base + s * k.element_size
unfolding dpage_bm_slot_to_vaddr
slot-vaddr k s pos room = omega arith

-- After `dpage_alloc` has handed out a slot in a well-formed state, every byte of the slot lies in a
-- mapped page, also where the slot crosses from one page into the next; every address that was
-- mapped before is mapped as before, and the directory is well formed. The pool's slots lie below
-- `2 ^ 32`, and none is larger than a page.
pub dpage_alloc-Backs :
    (k : Pool) (h : Heap) (vaddr : ℕ)
    → Fits k
    → IsWellFormed h.paging
    → (dpage_alloc k h).1 ≡ some vaddr
    → Backs k vaddr h.paging (dpage_alloc k h).2.paging
dpage_alloc-Backs k h vaddr fits w got = elim (Option-cases (find_slot h.bitmap (slot_count k) 0)) [
  | inl e ↦ absurd (ground (arith, alloc-none k h e))
  | inr (s, e) ↦
      let found = alloc-found k h s e in
      let lt = (find_slot-lt h.bitmap (slot_count k) 0 s e).1 in
      let room = fits.room s (omega (arith, lt)) in
      let addr = dpage_bm_slot_to_vaddr s k.vaddr_base k.element_size in
      let exact = slot-vaddr k s fits.some_bytes room in
      let r = commit_pages k addr h.paging in
      let bitmap = dpage_bm_set s h.bitmap k.bitmap_size_bytes in
      let (fine, same, is) =
        settle-some k s bitmap addr r.status r.paging vaddr (rw found at got) in
      rw found (
        rw is (
          rw (← same) (
            commit_pages-Backs k addr h.paging w fits.some_bytes fits.page_at_most (rw exact room)
              fine)))
]
