-- ===== src/Boot/Examples.antt =====
-- The theorems on `kernel/bootinfo.c` at a map of two entries, 640 KiB less 1 and 7 MiB.
use unidos.Base.{
  ℕ, ◌⊎◌, ◌+◌, ◌-◌, ◌*◌, ◌≤◌, ◌≡◌, refl, arith, true, false, [], Option, none, some, if◌then◌else◌,
  ltb, is_some, ◌==◌,
}
use unidos.Boot.{Table, data_size, read_desc, copied, bytes_at}
use unidos.Boot.Decode.{decode_e820, is_refused, count_entries, count_desc, end_of}
use unidos.Boot.Describe.{Accepts, HoldsBytes, decode_e820-describes, description, entries}
use unidos.Boot.Bounds.{decode_e820-bounds, with_payload}
use unidos.Boot.Init.{Info, Globals, use_cmos, magic}

abbrev low_bytes : ℕ → ℕ
low_bytes i = if i == 9 then 252 else if i == 10 then 9 else if i == 16 then 1 else 0

abbrev high_bytes : ℕ → ℕ
high_bytes i = if i == 2 then 16 else if i == 10 then 112 else if i == 16 then 1 else 0

abbrev two_entries : Table
two_entries = record {
  entry_size = 24;
  entry_count = 2;
  total_length = 48;
  payload = λ i. if ltb i 24 then low_bytes i else if ltb i 48 then high_bytes (i - 24) else 0;
}

two_entries-HoldsBytes : HoldsBytes two_entries.payload
two_entries-HoldsBytes i = ground arith

abbrev two_kib : Option ℕ
two_kib = elim (decode_e820 (some two_entries) (some 8)) [
  | none ↦ none
  | some d ↦ some (d.usable_kib * 65536 + d.top_kib)
]

decodes : two_kib ≡ some (7807 * 65536 + 8192)
unfolding decode_e820 count_entries is_refused count_desc end_of read_desc copied bytes_at
decodes = refl

decode_e820-describes_example :
    ((¬ Accepts two_entries) × (decode_e820 (some two_entries) (some 8) ≡ none))
    ⊎ (Accepts two_entries
        × (decode_e820 (some two_entries) (some 8)
            ≡ some (description 8 (entries two_entries 2 0))))
decode_e820-describes_example =
    decode_e820-describes two_entries (omega arith) (omega arith) 8 two_entries-HoldsBytes

abbrev other_payload : ℕ → ℕ
other_payload i = if ltb i 48 then two_entries.payload i else 7

decode_e820-bounds_example :
    (decode_e820 (some (with_payload other_payload two_entries)) (some 8)
      ≡ decode_e820 (some two_entries) (some 8))
    × (is_some (decode_e820 (some two_entries) (some 8)) ≡ true → 48 ≤ data_size)
decode_e820-bounds_example =
    decode_e820-bounds two_entries other_payload (some 8) (omega arith) (omega arith)
      (λ i lt. ground arith)

abbrev boot_info : Info
boot_info = record {
  signature = magic;
  total_size = 289;
  stage2_flags = 1;
  kernel_dest_addr_linear = 1048576;
  kernel_size_bytes = 65536;
  kparams_linear_addr = 4096;
  kparams_size_bytes = 16;
  e801_memory_size = 0;
  ah88_memory_size = 0;
  cmos_memory_size = 0;
  e820 = two_entries;
}

abbrev zeros : Globals
zeros = record {
  avail_memory_kib = 0;
  memory_method = use_cmos;
  e820_descs = [];
  e820_desc_count = 0;
  bootinfo_validated = false;
  kernel_phys_address = 0;
  kernel_size = 0;
  kparams_phys_address = 0;
  kparams_size = 0;
}
