-- ===== src/Boot.antt =====
-- The boot information that the loader leaves at a fixed address, as `kernel/bootinfo.c` and
-- `kernel/include/bootinfo.h` read it.
pub mod Decode
mod Bounds
mod Describe
mod Init
mod Memory
mod Examples
use unidos.Base.{ℕ, zero, suc, ◌+◌, ◌*◌, Bool, List, ltb, if◌then◌else◌, u64}

-- `bootinfo_e820_t`: the map of the memory as the firmware reports it, entries of `entry_size`
-- bytes in `payload`, which has room for 192.
pub record Table : Type 0 where
  pub entry_size : ℕ
  pub entry_count : ℕ
  pub total_length : ℕ
  pub payload : ℕ → ℕ

-- `e820_desc_t`
pub record Desc : Type 0 where
  pub base : ℕ
  pub length : ℕ
  pub type : ℕ
  pub attrs : ℕ

-- `e820_stats_t` and the descriptors that have been written out.
pub record Decoded : Type 0 where
  pub usable_kib : ℕ
  pub top_kib : ℕ
  pub descs : List Desc

abbrev pub data_size : ℕ
data_size = 192

abbrev pub desc_size : ℕ
desc_size = 24

-- `n` bytes from `a`, the low one first.
unfoldable pub bytes_at : ℕ → (ℕ → ℕ) → ℕ → ℕ
bytes_at zero m a = 0
bytes_at (suc n) m a = m a + 256 * bytes_at n m (a + 1)

-- `kmemcpy(&d, p, copyBytes)` into a descriptor of zeros, with `p` at `offset` of the data.
unfoldable pub copied : (ℕ → ℕ) → ℕ → ℕ → ℕ → ℕ
copied payload offset copy_bytes i = if ltb i copy_bytes then payload (offset + i) else 0

abbrev pub desc_of : (ℕ → ℕ) → Desc
desc_of d = record {
  base = bytes_at 8 d 0;
  length = bytes_at 8 d 8;
  type = bytes_at 4 d 16;
  attrs = bytes_at 4 d 20;
}

-- The entry that begins at `offset`.
unfoldable pub read_desc : Table → ℕ → Desc
unfolding copied
read_desc e offset =
    desc_of
      (copied e.payload offset (if ltb e.entry_size desc_size then e.entry_size else desc_size))
