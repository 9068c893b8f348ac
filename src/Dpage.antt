-- ===== src/Dpage.antt =====
-- `kernel/dpage.c` and `kernel/include/dpage.h`: pools of slots in demand-paged memory, with one bit
-- of a bitmap for each slot.
pub mod Slot
pub mod Supply
pub mod Commit
mod Backs
mod Rollback
mod Init
pub mod Examples
use unidos.Base.{
  ℕ, zero, suc, ◌+◌, ◌-◌, ◌*◌, ◌/◌, ◌%◌, Bool, true, false, not, ◌&&◌, ◌==◌, leb, ltb,
  if◌then◌else◌, Option, none, some, u32,
}
use unidos.Bitmap.Bits.{Bytes, set_bit, clear_bit, test_bit}
use unidos.Pmm.State.{alloc_success}
use unidos.Pmm.Alloc.{pmm_get_next_available_block, pmm_dealloc_specific_block}
use unidos.Pmm.Reserve.{paging_ok}
use unidos.Paging.{
  Paging, is_present, pde_index, pte_index, page_of, entry, pde, paging_map_page, paging_unmap_page,
}

pub data DpageStatus : Type 0 where
  dpage_success : DpageStatus
  pmm_init_failed : DpageStatus
  pg_init_failed : DpageStatus
  no_more_region_slots : DpageStatus

-- The arguments that name a pool: the address of its first slot, the size of a slot, and the size
-- of the bitmap in bytes. `vaddr_size_bytes` is not looked at.
pub record Pool : Type 0 where
  pub vaddr_base : ℕ
  pub element_size : ℕ
  pub bitmap_size_bytes : ℕ

abbrev pub slot_count : Pool → ℕ
slot_count k = k.bitmap_size_bytes * 8

unfoldable pub dpage_bm_set : ℕ → Bytes → ℕ → Bytes
dpage_bm_set i bitmap size = if leb (size * 8) i then bitmap else set_bit bitmap i

unfoldable pub dpage_bm_clear : ℕ → Bytes → ℕ → Bytes
dpage_bm_clear i bitmap size = if leb (size * 8) i then bitmap else clear_bit bitmap i

unfoldable pub dpage_is_allocated : ℕ → Bytes → ℕ → Bool
dpage_is_allocated i bitmap size = if leb (size * 8) i then false else test_bit bitmap i

unfoldable pub dpage_bm_slot_to_vaddr : ℕ → ℕ → ℕ → ℕ
dpage_bm_slot_to_vaddr slot base size = u32 (base + slot * size)

-- The first clear bit among the `n` from `slot` on.
unfoldable pub find_slot : Bytes → ℕ → ℕ → Option ℕ
find_slot bitmap zero slot = none
find_slot bitmap (suc n) slot = elim (test_bit bitmap slot) [
  | false ↦ some slot
  | true ↦ find_slot bitmap n (slot + 1)
]

-- The presence check in the kernel's directory.
unfoldable pub need_map : Paging → ℕ → Bool
need_map p page_start =
    if not (is_present (pde p (pde_index page_start)))
    then true
    else not (is_present (entry p (page_of (pde p (pde_index page_start))) (pte_index page_start)))

-- `PG_PRESENT | PG_RW`
abbrev pub present_rw : ℕ
present_rw = 3

-- `pmm_dealloc_specific_block`, whose result is not looked at.
abbrev pub give_back : ℕ → Paging → Paging
give_back phys p = record p { pmm = (pmm_dealloc_specific_block p.pmm phys).1 }

-- The page is unmapped and its frame given back. The source leaves `unmap_phys` as it is where the
-- call fails; here it is 0 then.
unfoldable pub release_page : ℕ → Paging → Paging
release_page page p = let (res, phys, p') = paging_unmap_page page p in give_back phys p'

-- One round of the loop over the pages: a status, whether the round has mapped its page, and the new
-- state. `undo_oom` and `undo_map` are the rollbacks of the two error paths.
pub record Round : Type 0 where
  pub status : DpageStatus
  pub mapped : Bool
  pub paging : Paging

unfoldable pub demand_map : (Paging → Paging) → (Paging → Paging) → ℕ → Paging → Round
demand_map undo_oom undo_map page_start p =
    let (res, phys, m) = pmm_get_next_available_block p.pmm in
    let p' = record p { pmm = m } in
    elim res [
      | alloc_success ↦
          let (map_res, q) = paging_map_page page_start phys present_rw p' in
          elim map_res [
            | paging_ok ↦ record { status = dpage_success; mapped = true; paging = q }
            | _ ↦ record {
              status = pg_init_failed;
              mapped = false;
              paging = undo_map (give_back phys q);
            }
          ]
      | _ ↦ record { status = pmm_init_failed; mapped = false; paging = undo_oom p' }
    ]

unfoldable pub page_round : (Paging → Paging) → (Paging → Paging) → ℕ → Paging → Round
page_round undo_oom undo_map page_start p =
    if need_map p page_start
    then demand_map undo_oom undo_map page_start p
    else record { status = dpage_success; mapped = false; paging = p }

abbrev pub kept_as_is : Paging → Paging
kept_as_is p = p

-- The second round, after a first one that has succeeded.
unfoldable pub second_round : ℕ → ℕ → Round → Round
second_round first second r = elim r.status [
  | dpage_success ↦
      page_round (release_page first) (if r.mapped then release_page first else kept_as_is) second
        r.paging
  | _ ↦ r
]

-- The pages of the first and of the last byte of the slot; one round where they are the same.
unfoldable pub commit_pages : Pool → ℕ → Paging → Round
commit_pages k vaddr p =
    let first = page_of vaddr in
    let second = page_of (u32 (vaddr + k.element_size - 1)) in
    let r = page_round kept_as_is kept_as_is first p in
    if second == first then r else second_round first second r

-- A pool's bitmap and the paging below it.
pub record Heap : Type 0 where
  pub bitmap : Bytes
  pub paging : Paging

-- The result for slot `slot` by the status of the rounds; `bitmap` has its bit set.
unfoldable pub settle : Pool → ℕ → Bytes → ℕ → DpageStatus → Paging → DpageStatus × Option ℕ × Heap
settle k slot bitmap vaddr dpage_success q =
    (dpage_success, some vaddr, record { bitmap = bitmap; paging = q })
settle k slot bitmap vaddr st q =
    (st, none, record { bitmap = dpage_bm_clear slot bitmap k.bitmap_size_bytes; paging = q })

abbrev pub commit_slot : Pool → ℕ → Heap → DpageStatus × Option ℕ × Heap
commit_slot k slot h =
    let bitmap = dpage_bm_set slot h.bitmap k.bitmap_size_bytes in
    let vaddr = dpage_bm_slot_to_vaddr slot k.vaddr_base k.element_size in
    let r = commit_pages k vaddr h.paging in settle k slot bitmap vaddr r.status r.paging

-- `*out_status`, the address of the slot (`none` for `NULL`) and the new state. The words of the
-- slot, which are then cleared, belong to the structures that its users keep in the pool.
unfoldable pub dpage_alloc : Pool → Heap → DpageStatus × Option ℕ × Heap
dpage_alloc k h = elim (find_slot h.bitmap (slot_count k) 0) [
  | none ↦ (no_more_region_slots, none, h)
  | some slot ↦ commit_slot k slot h
]

-- The first page of the bitmap and that of the pool are mapped, and the bitmap's is cleared: whether
-- that has worked, and the new state. The page of the pool is cleared too, as a slot is.
unfoldable pub dpage_init : ℕ → ℕ → Heap → Bool × Heap
dpage_init bitmap_base pool_base h =
    let one = demand_map kept_as_is kept_as_is bitmap_base h.paging in
    elim one.status [
      | dpage_success ↦
          let two = demand_map kept_as_is kept_as_is pool_base one.paging in
          let cleared : Heap = record {
            bitmap = λ i. if ltb i 4096 then 0 else h.bitmap i;
            paging = two.paging;
          } in
          elim two.status [ dpage_success ↦ (true, cleared) | _ ↦ (false, cleared) ]
      | _ ↦ (false, record h { paging = one.paging })
    ]
