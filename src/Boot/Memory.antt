-- ===== src/Boot/Memory.antt =====
-- What the kernel knows of its memory after `bootinfo_init` of `kernel/bootinfo.c`.
use unidos.Base.{◌≤◌, ◌<◌, ◌≡◌, ◌⊎◌, true, false, Option, none, some, length}
use unidos.Boot.Describe.{Accepts, description, entries}
use unidos.Boot.Init.{
  Info, Globals, Method, use_e820, use_cmos, use_e801, use_ah88, extract_memory_method,
  bootinfo_validate_prefix, e820_desc_max,
}

-- The e820 table is to be used, and its header is not accepted.
abbrev Halts : Method → Info → Type 0
Halts m bi = (m ≡ use_e820) × (¬ Accepts bi.e820)

-- What the globals know of the memory by each of the methods. A size that the CMOS reports is replaced
-- by 8 MiB where it is 1 MiB or less; after a table, its size and the descriptors, at most
-- `e820_desc_max` and as many as are counted, are those that the table describes.
abbrev Memory : Method → Info → Globals → Type 0
Memory use_cmos bi h =
    (bi.cmos_memory_size ≤ 1024 → h.avail_memory_kib ≡ 8192)
    × (1024 < bi.cmos_memory_size → h.avail_memory_kib ≡ bi.cmos_memory_size)
Memory use_e820 bi h =
    let known = description e820_desc_max (entries bi.e820 bi.e820.entry_count 0) in
    (h.avail_memory_kib ≡ known.top_kib)
    × ((h.e820_descs ≡ known.descs)
        × ((h.e820_desc_count ≡ length h.e820_descs) × (length h.e820_descs ≤ e820_desc_max)))
Memory use_e801 bi h = h.avail_memory_kib ≡ bi.e801_memory_size
Memory use_ah88 bi h = h.avail_memory_kib ≡ bi.ah88_memory_size

pub record KnowsMemory (m : Method) (bi : Info) (h : Globals) : Type 0 where
  pub method : h.memory_method ≡ m
  pub memory : Memory m bi h

abbrev Gets : Method → Info → Option Globals → Type 0
Gets m bi o =
    (Halts m bi × (o ≡ none))
    ⊎ ((¬ Halts m bi) × ((h : Globals) × (o ≡ some h) × KnowsMemory m bi h))

abbrev pub method_of : Info → Method
method_of bi = extract_memory_method bi.stage2_flags

-- The globals of the kernel's place are those of the loader, and the flag is set.
pub record Knows (bi : Info) (h : Globals) : Type 0 where
  pub accepted : bootinfo_validate_prefix bi ≡ true
  pub validated : h.bootinfo_validated ≡ true
  pub memory : KnowsMemory (method_of bi) bi h
  pub kernel :
      (h.kernel_phys_address ≡ bi.kernel_dest_addr_linear) × (h.kernel_size ≡ bi.kernel_size_bytes)
  pub kparams :
      (h.kparams_phys_address ≡ bi.kparams_linear_addr) × (h.kparams_size ≡ bi.kparams_size_bytes)

abbrev pub Informs : Info → Option Globals → Type 0
Informs bi o =
    (((bootinfo_validate_prefix bi ≡ false) ⊎ Halts (method_of bi) bi) × (o ≡ none))
    ⊎ ((¬ Halts (method_of bi) bi) × ((h : Globals) × (o ≡ some h) × Knows bi h))
