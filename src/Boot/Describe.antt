-- ===== src/Boot/Describe.antt =====
-- What a decoded table means: `decode_e820` of `kernel/bootinfo.c` against the list of its entries.
use unidos.Base.{
  ℕ, zero, suc, ◌*◌, ◌⊎◌, true, false, Bool-cases, inl, inr, ◌+◌, ◌-◌, ◌/◌, ◌^◌, ◌≤◌, ◌<◌, ◌≡◌,
  refl, sym, ◌∙◌, append_nil, append_assoc, min, max, arith, if◌then◌else◌, Option, none, some,
  List, [], ◌∷◌, ◌++◌, length, length-append, u32, u64, take,
}
use native.Mathlib.Nat.{mul-le-mul}
use unidos.Boot.{data_size, Table, Desc, Decoded, read_desc, bytes_at, copied}
use unidos.Boot.Decode.{
  Totals, is_usable, end_of, count_desc, count_entries, is_refused, no_totals, decode_e820,
}

-- The entries that lie behind each other from `offset`.
unfoldable pub entries : Table → ℕ → ℕ → List Desc
entries e zero offset = []
entries e (suc n) offset = read_desc e offset ∷ entries e n (offset + e.entry_size)

-- The bytes that the usable entries have together.
unfoldable pub usable_total : List Desc → ℕ
usable_total [] = 0
usable_total (d ∷ ds) = (if is_usable d then d.length else 0) + usable_total ds

-- Behind the last byte of the highest usable entry, and never above `2 ^ 64 - 1`.
unfoldable pub highest : List Desc → ℕ
highest [] = 0
highest (d ∷ ds) =
    max (if is_usable d then min (d.base + d.length) (2 ^ 64 - 1) else 0) (highest ds)

abbrev pub description : ℕ → List Desc → Decoded
description capacity ds = record {
  usable_kib = u32 (u64 (usable_total ds) / 1024);
  top_kib = u32 (highest ds / 1024);
  descs = take capacity ds;
}

abbrev pub HoldsBytes : (ℕ → ℕ) → Type 0
HoldsBytes m = (i : ℕ) → m i < 256

bytes_at-lt : (m : ℕ → ℕ) (a : ℕ) → HoldsBytes m → bytes_at 8 m a < 2 ^ 64
unfolding bytes_at
bytes_at-lt m a b = omega (
  arith,
  b a,
  b (a + 1),
  b (a + 1 + 1),
  b (a + 1 + 1 + 1),
  b (a + 1 + 1 + 1 + 1),
  b (a + 1 + 1 + 1 + 1 + 1),
  b (a + 1 + 1 + 1 + 1 + 1 + 1),
  b (a + 1 + 1 + 1 + 1 + 1 + 1 + 1),
)

copied-HoldsBytes : (m : ℕ → ℕ) (o c : ℕ) → HoldsBytes m → HoldsBytes (copied m o c)
unfolding copied
copied-HoldsBytes m o c b i = ground (arith, b (o + i))

end_of-min :
    (d : Desc)
    → d.base < 2 ^ 64
    → d.length < 2 ^ 64
    → end_of d ≡ min (d.base + d.length) (2 ^ 64 - 1)
unfolding end_of
end_of-min d hb hl = ground arith

-- Every entry of the list has a base and a length of 64 bits.
unfoldable AreWide : List Desc → Type 0
AreWide [] = zero ≡ zero
AreWide (d ∷ ds) = (d.base < 2 ^ 64) × ((d.length < 2 ^ 64) × AreWide ds)

entries-AreWide : (e : Table) (n offset : ℕ) → HoldsBytes e.payload → AreWide (entries e n offset)
unfolding AreWide entries read_desc
entries-AreWide e zero offset b = refl
entries-AreWide e (suc n) offset b =
    let bytes = copied-HoldsBytes e.payload offset _ b in
    (bytes_at-lt _ 0 bytes, (bytes_at-lt _ 8 bytes, entries-AreWide e n (offset + e.entry_size) b))

-- The rounds, as a fold of the list of entries.
unfoldable count_all : Option ℕ → List Desc → Totals → Totals
count_all capacity [] t = t
count_all capacity (d ∷ ds) t = count_all capacity ds (count_desc capacity d t)

count_entries-all :
    (capacity : Option ℕ) (e : Table) (n offset : ℕ) (t : Totals)
    → count_entries capacity e n offset t ≡ count_all capacity (entries e n offset) t
unfolding count_entries count_all entries
count_entries-all capacity e zero offset t = refl
count_entries-all capacity e (suc n) offset t =
    count_entries-all capacity e n (offset + e.entry_size)
      (count_desc capacity (read_desc e offset) t)

module _ (capacity : Option ℕ) where
  count_all-usable :
      (ds : List Desc) (t : Totals)
      → t.usable_bytes < 2 ^ 64
      → (count_all capacity ds t).usable_bytes ≡ u64 (t.usable_bytes + usable_total ds)
  unfolding count_all count_desc usable_total
  count_all-usable [] t lt = ground arith
  count_all-usable (d ∷ ds) t lt =
      ground (arith, count_all-usable ds (count_desc capacity d t) (ground arith))

  count_all-top :
      (ds : List Desc) (t : Totals)
      → AreWide ds
      → (count_all capacity ds t).top_bytes ≡ max t.top_bytes (highest ds)
  unfolding count_all count_desc highest AreWide
  count_all-top [] t w = ground arith
  count_all-top (d ∷ ds) t (hb, (hl, w)) =
      ground (arith, count_all-top ds (count_desc capacity d t) w, end_of-min d hb hl)

module _ (n : ℕ) (d : Desc) (t : Totals) where
  count_desc-full : n ≤ length t.descs → (count_desc (some n) d t).descs ≡ t.descs
  unfolding count_desc
  count_desc-full le = ground arith

  count_desc-room : length t.descs < n → (count_desc (some n) d t).descs ≡ t.descs ++ d ∷ []
  unfolding count_desc
  count_desc-room lt = ground arith

-- What is written out, with room left for `r` descriptors.
count_all-descs :
    (n r : ℕ) (ds : List Desc) (t : Totals)
    → length t.descs + r ≡ n
    → (count_all (some n) ds t).descs ≡ t.descs ++ take r ds
unfolding count_all
count_all-descs n zero [] t room = sym (append_nil t.descs)
count_all-descs n (suc r) [] t room = sym (append_nil t.descs)
count_all-descs n zero (d ∷ ds) t room =
    let same : (count_desc (some n) d t).descs ≡ t.descs =
      count_desc-full n d t (omega (arith, room)) in
    count_all-descs n zero ds (count_desc (some n) d t) (rw same room) ∙ rw same refl
count_all-descs n (suc r) (d ∷ ds) t room =
    let more : (count_desc (some n) d t).descs ≡ t.descs ++ d ∷ [] =
      count_desc-room n d t (omega (arith, room)) in
    count_all-descs n r ds (count_desc (some n) d t)
      (rw more (omega (arith, room, length-append t.descs (d ∷ []))))
    ∙ rw more (append_assoc t.descs (d ∷ []) (take r ds))

-- The header of a table that is decoded.
pub record Accepts (e : Table) : Type 0 where
  pub whole_entries : 20 ≤ e.entry_size
  pub some_entries : 0 < e.entry_count
  pub has_room : e.total_length ≤ data_size
  pub fits : e.entry_count * e.entry_size ≤ e.total_length

module _ (e : Table) (size_word : e.entry_size < 2 ^ 16) (count_word : e.entry_count < 2 ^ 16) where
  no_wrap : u32 (e.entry_count * e.entry_size) ≡ e.entry_count * e.entry_size
  no_wrap =
      let small : e.entry_count * e.entry_size ≤ 65535 * 65535 =
        mul-le-mul {n₁ = e.entry_count} {m₁ = e.entry_size} {n₂ = 65535} {m₂ = 65535} (omega arith)
          (omega arith) in
      omega (arith, small)

  accepted-Accepts : is_refused e ≡ false → Accepts e
  unfolding is_refused
  accepted-Accepts c = record {
    whole_entries = ground (arith, c);
    some_entries = ground (arith, c);
    has_room = ground (arith, c);
    fits = ground (arith, c, no_wrap);
  }

  refused-Accepts : is_refused e ≡ true → ¬ Accepts e
  unfolding is_refused
  refused-Accepts c a =
      ground (arith, c, a.whole_entries, a.some_entries, a.has_room, a.fits, no_wrap)

  pub Accepts-cases : ((is_refused e ≡ true) × (¬ Accepts e)) ⊎ ((is_refused e ≡ false) × Accepts e)
  Accepts-cases = elim (Bool-cases (is_refused e)) [
    | inl c ↦ inl (c, refused-Accepts c)
    | inr c ↦ inr (c, accepted-Accepts c)
  ]

  module _ (capacity : ℕ) (b : HoldsBytes e.payload) where
    pub accepted-describes :
        is_refused e ≡ false
        → decode_e820 (some e) (some capacity)
          ≡ some (description capacity (entries e e.entry_count 0))
    unfolding decode_e820
    accepted-describes c =
        let n = e.entry_count in
        let ds = entries e n 0 in
        let u = count_all-usable (some capacity) ds no_totals (omega arith) in
        let h = count_all-top (some capacity) ds no_totals (entries-AreWide e n 0 b) in
        let l = count_all-descs capacity capacity ds no_totals (omega arith) in
        rw (count_entries-all (some capacity) e n 0 no_totals)
          (rw u (rw h (rw l (ground (arith, c)))))

    pub refused-none : is_refused e ≡ true → decode_e820 (some e) (some capacity) ≡ none
    unfolding decode_e820
    refused-none c = rw c refl

    -- With a size and a number of entries of 16 bits and data that holds bytes, `decode_e820` succeeds
    -- exactly where an entry has at least 20 bytes, there is one, and all of them lie within a length
    -- that the data has room for. Then it reports, of the entries that follow each other in the data:
    -- the bytes of the usable ones together, modulo `2 ^ 64`; the end of the highest usable one, never
    -- above `2 ^ 64 - 1`, also where base and length overflow; both in KiB, cut to 32 bits; and the
    -- first entries, as many as there is room for.
    pub decode_e820-describes :
        ((¬ Accepts e) × (decode_e820 (some e) (some capacity) ≡ none))
        ⊎ (Accepts e
            × (decode_e820 (some e) (some capacity)
                ≡ some (description capacity (entries e e.entry_count 0))))
    decode_e820-describes = elim Accepts-cases [
      | inl (c, out) ↦ inl (out, refused-none c)
      | inr (c, a) ↦ inr (a, accepted-describes c)
    ]
