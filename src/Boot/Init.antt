-- ===== src/Boot/Init.antt =====
-- `bootinfo_init` of `kernel/bootinfo.c` and its three parts.
use unidos.Base.{
  ℕ, ◌%◌, Bool, true, false, ◌&&◌, ◌==◌, leb, if◌then◌else◌, Option, none, some, List, [], ◌∷◌,
  length,
}
use unidos.Boot.{Table, Desc, Decoded}
use unidos.Boot.Decode.{decode_e820}

-- Of `bootinfo_t`, the fields that the kernel reads. The first four bytes are the signature.
pub record Info : Type 0 where
  pub signature : List ℕ
  pub total_size : ℕ
  pub stage2_flags : ℕ
  pub kernel_dest_addr_linear : ℕ
  pub kernel_size_bytes : ℕ
  pub kparams_linear_addr : ℕ
  pub kparams_size_bytes : ℕ
  pub e801_memory_size : ℕ
  pub ah88_memory_size : ℕ
  pub cmos_memory_size : ℕ
  pub e820 : Table

pub data Method : Type 0 where
  use_cmos : Method
  use_e820 : Method
  use_e801 : Method
  use_ah88 : Method

-- The globals of the file.
pub record Globals : Type 0 where
  pub avail_memory_kib : ℕ
  pub memory_method : Method
  pub e820_descs : List Desc
  pub e820_desc_count : ℕ
  pub bootinfo_validated : Bool
  pub kernel_phys_address : ℕ
  pub kernel_size : ℕ
  pub kparams_phys_address : ℕ
  pub kparams_size : ℕ

abbrev pub synthetic_mem_fallback : ℕ
synthetic_mem_fallback = 8192

abbrev pub bootinfo_size_expected : ℕ
bootinfo_size_expected = 289

abbrev pub e820_desc_max : ℕ
e820_desc_max = 8

-- The letters `BTP1`.
abbrev pub magic : List ℕ
magic = 66 ∷ 84 ∷ 80 ∷ 49 ∷ []

abbrev same_bytes : List ℕ → List ℕ → Bool
same_bytes [] [] = true
same_bytes (x ∷ xs) (y ∷ ys) = x == y && same_bytes xs ys
same_bytes _ _ = false

-- `BI_EXTRACT_MEMORY_METHOD`; two bits leave no other case.
unfoldable pub extract_memory_method : ℕ → Method
extract_memory_method flags =
    let two_bits = flags % 4 in
    if two_bits == 0
    then use_cmos
    else if two_bits == 1
    then use_e820
    else if two_bits == 2
    then use_e801
    else use_ah88

-- `false` for `HALT_FOREVER`.
unfoldable pub bootinfo_validate_prefix : Info → Bool
bootinfo_validate_prefix bi =
    same_bytes bi.signature magic && bi.total_size == bootinfo_size_expected

abbrev with_table : Globals → Option Decoded → Option Globals
with_table g none = none
with_table g (some d) = some (record g {
  e820_descs = d.descs;
  e820_desc_count = length d.descs;
  avail_memory_kib = d.top_kib;
  memory_method = use_e820;
})

-- The cases of the `switch`; `none` for `HALT_FOREVER`.
unfoldable pub getmem_by : Method → Info → Globals → Option Globals
getmem_by use_cmos bi g = some (record g {
  memory_method = use_cmos;
  avail_memory_kib =
      if leb bi.cmos_memory_size 1024 then synthetic_mem_fallback else bi.cmos_memory_size;
})
getmem_by use_e820 bi g = with_table g (decode_e820 (some bi.e820) (some e820_desc_max))
getmem_by use_e801 bi g =
    some (record g { avail_memory_kib = bi.e801_memory_size; memory_method = use_e801 })
getmem_by use_ah88 bi g =
    some (record g { avail_memory_kib = bi.ah88_memory_size; memory_method = use_ah88 })

unfoldable pub bootinfo_getmem : Info → Globals → Option Globals
bootinfo_getmem bi g = getmem_by (extract_memory_method bi.stage2_flags) bi g

unfoldable pub bootinfo_getkmetadata : Info → Globals → Globals
bootinfo_getkmetadata bi g = record g {
  kernel_phys_address = bi.kernel_dest_addr_linear;
  kernel_size = bi.kernel_size_bytes;
  kparams_phys_address = bi.kparams_linear_addr;
  kparams_size = bi.kparams_size_bytes;
}

unfoldable pub bootinfo_init : Info → Globals → Option Globals
bootinfo_init bi g =
    if bootinfo_validate_prefix bi
    then elim (bootinfo_getmem bi g) [
      | none ↦ none
      | some h ↦ some (record (bootinfo_getkmetadata bi h) { bootinfo_validated = true })
    ]
    else none
