-- ===== src/Boot/Bounds.antt =====
-- The bytes that `decode_e820` of `kernel/bootinfo.c` reads.
use unidos.Base.{
  ℕ, zero, suc, ◌+◌, ◌*◌, ◌^◌, ◌≤◌, ◌<◌, ◌≡◌, refl, fun_ext, ◌∙◌, arith, true, false, Option, some,
  Bool-cases, inl, inr, ap, is_some,
}
use native.Mathlib.Nat.{suc-mul, mul-le-mul}
use unidos.Boot.{Table, data_size, read_desc, copied, desc_of}
use unidos.Boot.Decode.{
  count_desc, count_entries, Totals, is_refused, no_totals, decoded, decode_e820,
}

-- The table with other bytes behind the header.
abbrev pub with_payload : (ℕ → ℕ) → Table → Table
with_payload m e = record e { payload = m }

abbrev pub AgreeBelow : ℕ → (ℕ → ℕ) → (ℕ → ℕ) → Type 0
AgreeBelow n m k = (i : ℕ) → i < n → m i ≡ k i

module _ (e : Table) (m : ℕ → ℕ) (agree : AgreeBelow e.total_length m e.payload) where
  copied-agree :
      (offset c i : ℕ)
      → offset + c ≤ e.total_length
      → copied m offset c i ≡ copied e.payload offset c i
  unfolding copied
  copied-agree offset c i le = ground (arith, agree (offset + i))

  read_desc-agree :
      (offset : ℕ)
      → offset + e.entry_size ≤ e.total_length
      → read_desc (with_payload m e) offset ≡ read_desc e offset
  unfolding read_desc
  read_desc-agree offset le = ap desc_of (fun_ext (λ i. copied-agree offset _ i (ground arith)))

  count_entries-agree :
      (capacity : Option ℕ) (n offset : ℕ) (t : Totals)
      → offset + n * e.entry_size ≤ e.total_length
      → count_entries capacity (with_payload m e) n offset t ≡ count_entries capacity e n offset t
  unfolding count_entries
  count_entries-agree capacity zero offset t le = refl
  count_entries-agree capacity (suc n) offset t le =
      rw (read_desc-agree offset (omega (arith, suc-mul n e.entry_size))) (
        count_entries-agree capacity n (offset + e.entry_size)
          (count_desc capacity (read_desc e offset) t) (omega (arith, suc-mul n e.entry_size)))

  -- The product of two 16-bit numbers does not wrap around.
  accepted-fits :
      e.entry_size < 2 ^ 16
      → e.entry_count < 2 ^ 16
      → is_refused e ≡ false
      → e.entry_count * e.entry_size ≤ e.total_length
  unfolding is_refused
  accepted-fits hs hc ok =
      let small : e.entry_count * e.entry_size ≤ 65535 * 65535 =
        mul-le-mul {n₁ = e.entry_count} {m₁ = e.entry_size} {n₂ = 65535} {m₂ = 65535} (omega arith)
          (omega arith) in
      ground arith

refused-payload : (e : Table) (m : ℕ → ℕ) → is_refused (with_payload m e) ≡ is_refused e
unfolding is_refused
refused-payload e m = refl

accepted-room : (e : Table) → is_refused e ≡ false → e.total_length ≤ data_size
unfolding is_refused
accepted-room e c = ground arith

-- `decode_e820` reads no byte of the data at or behind `total_length`, which it accepts only where
-- the data has room for it: whatever lies there, the result is the same, and so is the answer on
-- whether the table is refused. The size and the number of the entries have 16 bits.
pub decode_e820-bounds :
    (e : Table) (m : ℕ → ℕ) (capacity : Option ℕ)
    → e.entry_size < 2 ^ 16
    → e.entry_count < 2 ^ 16
    → AgreeBelow e.total_length m e.payload
    → (decode_e820 (some (with_payload m e)) capacity ≡ decode_e820 (some e) capacity)
      × (is_some (decode_e820 (some e) capacity) ≡ true → e.total_length ≤ data_size)
unfolding decode_e820
decode_e820-bounds e m capacity hs hc agree = elim (Bool-cases (is_refused e)) [
  | inl c ↦ (rw c (rw (refused-payload e m ∙ c) refl), λ some_e. absurd (ground (arith, c)))
  | inr c ↦ (
    rw c (
        rw (refused-payload e m ∙ c) (
          ap (λ t. some (decoded t))
            (count_entries-agree e m agree capacity e.entry_count 0 no_totals
              (omega (arith, accepted-fits e m agree hs hc c))))),
    λ some_e. accepted-room e c,
  )
]
