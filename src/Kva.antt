-- ===== src/Kva.antt =====
-- `kernel/kva.c`: the named regions of kernel virtual memory, and the mapping of a region.
mod Names
mod Layout
mod Register
mod Mapping
mod Leak
mod Examples
use unidos.Base.{
  ℕ, zero, suc, ◌+◌, ◌-◌, ◌*◌, ◌/◌, ◌%◌, Bool, true, false, not, ◌&&◌, ◌||◌, ◌==◌, leb, ltb,
  if◌then◌else◌, Option, none, some, is_some, List, [], ◌∷◌, ◌++◌, u32, update,
}
use unidos.Pmm.State.{alloc_success}
use unidos.Pmm.Alloc.{pmm_get_next_available_block, pmm_dealloc_specific_block}
use unidos.Pmm.Reserve.{paging_ok}
use unidos.Paging.{Paging, paging_map_page, paging_unmap_page, kernel_virtual_base}

-- The characters of a name; a character 0 ends it.
abbrev pub Name : Type 0
Name = ℕ → ℕ

-- `kva_region_t`
pub record Region : Type 0 where
  pub name : Name
  pub base : ℕ
  pub size : ℕ
  pub mapped : Bool

-- The file's variables.
pub record Kva : Type 0 where
  pub kva_regions : ℕ → Region
  pub kva_region_count : ℕ
  pub kva_next_free : ℕ
  pub kva_initialized : Bool

abbrev pub region_max : ℕ
region_max = 16

abbrev pub name_max : ℕ
name_max = 16

abbrev pub kva_region_base : ℕ
kva_region_base = 0xc1000000

abbrev pub phys_window_base : ℕ
phys_window_base = 0xd0000000

-- The loop of `_kva_strncpy` with `n` characters left, from character `i` on.
unfoldable pub strncpy_from : ℕ → ℕ → Name → Name → Name
strncpy_from zero i dest src = dest
strncpy_from (suc n) i dest src =
    let copied = update dest i (src i) in
    let rest = strncpy_from n (i + 1) copied src in if src i == 0 then copied else rest

-- `_kva_strncmp(s1, s2, n) == 0`, from character `i` on.
unfoldable pub same_name_from : ℕ → ℕ → Name → Name → Bool
same_name_from zero i s1 s2 = true
same_name_from (suc n) i s1 s2 =
    let rest = same_name_from n (i + 1) s1 s2 in
    if not (s1 i == s2 i) then false else if s1 i == 0 then true else rest

-- The searches through the array, `n` entries from `i` on: the first one that is in use and has the
-- name.
unfoldable pub find_region : ℕ → ℕ → Name → Kva → Option ℕ
find_region zero i name k = none
find_region (suc n) i name k =
    let r = k.kva_regions i in
    let rest = find_region n (i + 1) name k in
    if r.base == 0 then rest else if same_name_from name_max 0 r.name name then some i else rest

abbrev pub the_region : Name → Kva → Option ℕ
the_region name k = find_region 18 0 name k

-- A name is `none` for `NULL`; the result is `none` for a panic.
unfoldable pub kva_get_region_base : Option Name → Kva → Option ℕ
kva_get_region_base none k = none
kva_get_region_base (some name) k = elim (the_region name k) [
  | none ↦ none
  | some i ↦ some (k.kva_regions i).base
]

unfoldable pub kva_get_region_size : Option Name → Kva → Option ℕ
kva_get_region_size none k = none
kva_get_region_size (some name) k = elim (the_region name k) [
  | none ↦ none
  | some i ↦ some (k.kva_regions i).size
]

unfoldable pub kva_region_exists : Option Name → Kva → Bool
kva_region_exists none k = false
kva_region_exists (some name) k = is_some (the_region name k)

abbrev pub set_region : ℕ → Region → Kva → Kva
set_region i r k = record k { kva_regions = λ j. if j == i then r else k.kva_regions j }

-- A name from its characters.
abbrev pub chars : List ℕ → Name
chars [] i = 0
chars (c ∷ cs) zero = c
chars (c ∷ cs) (suc i) = chars cs i

-- `physwin` and `unistack`
abbrev pub physwin : Name
physwin = chars (112 ∷ 104 ∷ 121 ∷ 115 ∷ 119 ∷ 105 ∷ 110 ∷ [])

abbrev pub unistack : Name
unistack = chars (117 ∷ 110 ∷ 105 ∷ 115 ∷ 116 ∷ 97 ∷ 99 ∷ 107 ∷ [])

abbrev pub named : Name → Region → Region
named name r = record r { name = strncpy_from name_max 0 r.name name }

-- The records of the window and of the stack, made by the first registration.
unfoldable pub lazy_init : Kva → Kva
lazy_init k =
    let window = named physwin (k.kva_regions 14) in
    let stack = named unistack (k.kva_regions 15) in
    let first = record k { kva_initialized = true } in
    if k.kva_initialized
    then k
    else set_region 15 (record stack { base = 0xf7000000; size = 16 * 4096; mapped = true })
        (set_region 14 (record window { base = phys_window_base; size = 0x10000000; mapped = true })
          first)

abbrev pub aligned_up : ℕ → ℕ
aligned_up n = u32 (n + 0xfff) / 4096 * 4096

-- The record of the new region, in the state that the guards have let pass.
abbrev pub place_region : Name → ℕ → Kva → Kva
place_region name size k =
    let i = k.kva_region_count in
    let base = aligned_up k.kva_next_free in
    set_region i
      (record (named name (k.kva_regions i)) { base = base; size = size; mapped = false })
      (record k { kva_next_free = base })

-- `*out_base` and the new state, or `none` for a panic. `image_size` is the size of the kernel's
-- image, which the linker knows.
unfoldable pub kva_register_region : ℕ → Name → ℕ → Kva → Option (ℕ × Kva)
kva_register_region image_size name size k =
    let k1 = lazy_init k in
    let k2 = place_region name size k1 in
    let base = k2.kva_next_free in
    let next_free = u32 (base + size) in
    if ltb kva_region_base (u32 (kernel_virtual_base + image_size))
    then none
    else if leb region_max k1.kva_region_count
    then none
    else if size == 0 || not (size % 4096 == 0)
    then none
    else if ltb phys_window_base (u32 (k1.kva_next_free + size))
    then none
    else if kva_region_exists (some name) k1
    then none
    else if ltb next_free base || leb phys_window_base (u32 (size + base))
    then none
    else some
        (base, record k2 { kva_next_free = next_free; kva_region_count = k2.kva_region_count + 1 })

-- The rewinding after a failed mapping: the pages that have been mapped, in their order, with their
-- frames. The results of the calls are not looked at.
unfoldable pub rewind : List (ℕ × ℕ) → Paging → Paging
rewind [] p = p
rewind ((virt, phys) ∷ done) p =
    let q = (paging_unmap_page virt p).2 in
    rewind done (record q { pmm = (pmm_dealloc_specific_block q.pmm phys).1 })

-- The loop over the pages, with `n` pages left from `virt_addr` on: whether it has come to its end.
-- Without a frame it stops; after a failed mapping it rewinds the pages before, but not the frame of
-- the page itself.
unfoldable pub map_pages : ℕ → ℕ → List (ℕ × ℕ) → Paging → Bool × Paging
map_pages zero virt_addr done p = (true, p)
map_pages (suc n) virt_addr done p =
    let (phys_res, phys_addr, m) = pmm_get_next_available_block p.pmm in
    let p' = record p { pmm = m } in
    elim phys_res [
      | alloc_success ↦
          let (res, q) = paging_map_page virt_addr phys_addr 3 p' in
          elim res [
            | paging_ok ↦
                map_pages n (u32 (virt_addr + 4096)) (done ++ (virt_addr, phys_addr) ∷ []) q
            | _ ↦ (false, rewind done q)
          ]
      | _ ↦ (false, p')
    ]

-- `kva_map_region` of the region that has been found; `none` for a panic.
unfoldable pub map_found : ℕ → Kva → Paging → Option (Bool × Kva × Paging)
map_found i k p =
    let r = k.kva_regions i in
    let (all, q) = map_pages (r.size / 4096) r.base [] p in
    if r.mapped
    then none
    else if all
    then some (true, set_region i (record r { mapped = true }) k, q)
    else some (false, k, q)

unfoldable pub kva_map_region : Option Name → Kva → Paging → Option (Bool × Kva × Paging)
kva_map_region none k p = none
kva_map_region (some name) k p = elim (the_region name k) [ none ↦ none | some i ↦ map_found i k p ]
