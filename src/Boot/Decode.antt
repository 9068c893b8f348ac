-- ===== src/Boot/Decode.antt =====
-- `decode_e820` of `kernel/bootinfo.c`.
use unidos.Base.{
  ℕ, zero, suc, ◌+◌, ◌-◌, ◌*◌, ◌/◌, ◌^◌, Bool, not, ◌&&◌, ◌||◌, ◌==◌, ltb, if◌then◌else◌, Option,
  none, some, List, [], ◌∷◌, ◌++◌, length, u32, u64,
}
use unidos.Boot.{Table, Desc, Decoded, data_size, read_desc}

-- What the loop keeps: `usableBytes`, `topBytes`, and the descriptors written so far, which
-- `descsFilled` counts.
pub record Totals : Type 0 where
  pub usable_bytes : ℕ
  pub top_bytes : ℕ
  pub descs : List Desc

abbrev pub is_usable : Desc → Bool
is_usable d = not (d.length == 0) && d.type == 1

-- `d.base + d.length`, with the clamp at an overflow.
unfoldable pub end_of : Desc → ℕ
end_of d = let end = u64 (d.base + d.length) in if ltb end d.base then 2 ^ 64 - 1 else end

-- One round, where `capacity` is `none` for a `descOut` that is `NULL`.
unfoldable pub count_desc : Option ℕ → Desc → Totals → Totals
count_desc capacity d t = record {
  usable_bytes = if is_usable d then u64 (t.usable_bytes + d.length) else t.usable_bytes;
  top_bytes = if is_usable d && ltb t.top_bytes (end_of d) then end_of d else t.top_bytes;
  descs = elim capacity [
    | none ↦ t.descs
    | some n ↦ if ltb (length t.descs) n then t.descs ++ d ∷ [] else t.descs
  ];
}

-- The rounds that are left, with `p` at `offset`.
unfoldable pub count_entries : Option ℕ → Table → ℕ → ℕ → Totals → Totals
count_entries capacity e zero offset t = t
count_entries capacity e (suc n) offset t =
    count_entries capacity e n (offset + e.entry_size) (count_desc capacity (read_desc e offset) t)

-- The guards on the header. The product of two 16-bit numbers is below `2 ^ 32`.
unfoldable pub is_refused : Table → Bool
is_refused e =
    ltb e.entry_size 20
    || (e.entry_count == 0
        || (ltb data_size e.total_length
            || ltb e.total_length (u32 (e.entry_count * e.entry_size))))

abbrev pub no_totals : Totals
no_totals = record { usable_bytes = 0; top_bytes = 0; descs = [] }

abbrev pub decoded : Totals → Decoded
decoded t = record {
  usable_kib = u32 (t.usable_bytes / 1024);
  top_kib = u32 (t.top_bytes / 1024);
  descs = t.descs;
}

-- `none` for `false`, and `e` is `none` for `NULL`. The pointers `out` and `descOutCount` are taken
-- not to be `NULL`: the one caller passes the addresses of its own variables.
unfoldable pub decode_e820 : Option Table → Option ℕ → Option Decoded
decode_e820 none capacity = none
decode_e820 (some e) capacity =
    if is_refused e
    then none
    else some (decoded (count_entries capacity e e.entry_count 0 no_totals))
