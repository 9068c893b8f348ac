-- ===== src/Kva/Layout.antt =====
-- The regions that `kva_register_region` of `kernel/kva.c` has laid out.
use unidos.Base.{
  ℕ, ◌+◌, ◌%◌, ◌^◌, ◌≤◌, ◌<◌, ◌≡◌, ◌≢◌, refl, sym, ◌∙◌, ap, arith, true, false, not, ◌||◌, ◌==◌,
  leb, ltb, some, Bool-cases, if_none-some, some_inj, inl, inr, u32,
}
use unidos.Kva.{
  Kva, Region, Name, region_max, kva_region_base, phys_window_base, aligned_up, lazy_init,
  place_region, named, kva_register_region, kva_region_exists,
}

abbrev pub base_of : Kva → ℕ → ℕ
base_of k i = (k.kva_regions i).base

abbrev pub end_of : Kva → ℕ → ℕ
end_of k i = (k.kva_regions i).base + (k.kva_regions i).size

-- The regions lie one behind the other in whole pages, from `kva_region_base` up to the next free
-- address, which is below the window on physical memory.
pub record IsLayout (k : Kva) : Type 0 where
  pub fresh : k.kva_initialized ≡ false → k.kva_region_count ≡ 0
  pub count : k.kva_region_count ≤ region_max
  pub aligned : k.kva_next_free % 4096 ≡ 0
  pub low : kva_region_base ≤ k.kva_next_free
  pub high : k.kva_next_free < phys_window_base
  pub page : (i : ℕ) → i < k.kva_region_count → base_of k i % 4096 ≡ 0
  pub above : (i : ℕ) → i < k.kva_region_count → kva_region_base ≤ base_of k i
  pub within : (i : ℕ) → i < k.kva_region_count → end_of k i ≤ k.kva_next_free
  pub nonempty : (i : ℕ) → i < k.kva_region_count → base_of k i < end_of k i
  pub ordered : (i j : ℕ) → i < j → j < k.kva_region_count → end_of k i ≤ base_of k j

-- What a registration that does not panic has done.
pub record Registers (name : Name) (size base : ℕ) (k k' : Kva) : Type 0 where
  pub has_slot : k.kva_region_count < region_max
  pub pages : size % 4096 ≡ 0
  pub some_pages : 0 < size
  pub is_base : base ≡ k.kva_next_free
  pub room : base + size < phys_window_base
  pub next_free : k'.kva_next_free ≡ base + size
  pub one_more : k'.kva_region_count ≡ k.kva_region_count + 1
  pub initialized : k'.kva_initialized ≡ true
  pub unique : kva_region_exists (some name) (lazy_init k) ≡ false
  pub new :
      k'.kva_regions k.kva_region_count
      ≡ record (named name ((lazy_init k).kva_regions k.kva_region_count)) {
        base = base;
        size = size;
        mapped = false;
      }
  pub others : (i : ℕ) → i ≢ k.kva_region_count → k'.kva_regions i ≡ (lazy_init k).kva_regions i

module _ (image_size : ℕ) (name : Name) (size base : ℕ) (k k' : Kva) (l : IsLayout k)
    (word : size < 2 ^ 32)
    (done : kva_register_region image_size name size k ≡ some (base, k')) where
  lazy-count : (lazy_init k).kva_region_count ≡ k.kva_region_count
  unfolding lazy_init
  lazy-count = ground arith

  lazy-next : (lazy_init k).kva_next_free ≡ k.kva_next_free
  unfolding lazy_init
  lazy-next = ground arith

  lazy-initialized : (lazy_init k).kva_initialized ≡ true
  unfolding lazy_init
  lazy-initialized = ground arith

  pub lazy-old : (i : ℕ) → i < k.kva_region_count → (lazy_init k).kva_regions i ≡ k.kva_regions i
  unfolding lazy_init
  lazy-old i lt = elim (Bool-cases k.kva_initialized) [
    | inl c ↦ rw c refl
    | inr c ↦ absurd (omega (arith, l.fresh c))
  ]

  abbrev k1 : Kva
  k1 = lazy_init k

  abbrev k2 : Kva
  k2 = place_region name size k1

  abbrev registered : ℕ × Kva
  registered = (
    k2.kva_next_free,
    record k2 {
      kva_next_free = u32 (k2.kva_next_free + size);
      kva_region_count = k2.kva_region_count + 1;
    },
  )

  -- The guards, in their order.
  record Passes : Type 0 where
    slots : leb region_max k1.kva_region_count ≡ false
    whole : (size == 0 || not (size % 4096 == 0)) ≡ false
    unused : kva_region_exists (some name) k1 ≡ false
    bounds :
        (ltb (u32 (k2.kva_next_free + size)) k2.kva_next_free
          || leb phys_window_base (u32 (size + k2.kva_next_free)))
        ≡ false
    result : registered ≡ (base, k')

  passed : Passes
  unfolding kva_register_region
  passed =
      let (g1, e1) = if_none-some _ _ (base, k') done in
      let (g2, e2) = if_none-some _ _ (base, k') e1 in
      let (g3, e3) = if_none-some _ _ (base, k') e2 in
      let (g4, e4) = if_none-some _ _ (base, k') e3 in
      let (g5, e5) = if_none-some _ _ (base, k') e4 in
      let (g6, e6) = if_none-some _ _ (base, k') e5 in
      record {
        slots = g2;
        whole = g3;
        unused = g5;
        bounds = g6;
        result = some_inj registered (base, k') e6;
      }

  is_next : aligned_up k1.kva_next_free ≡ k.kva_next_free
  is_next = omega (arith, lazy-next, l.aligned, l.high)

  base-is : base ≡ k.kva_next_free
  base-is = sym (ap (λ r. r.0) passed.result) ∙ is_next

  state-is : k' ≡ registered.1
  state-is = sym (ap (λ r. r.1) passed.result)

  room : base + size < phys_window_base
  room = ground (arith, passed.bounds, is_next, base-is, l.high)

  abbrev region_at : ℕ → ℕ → Region
  region_at i b = record (named name (k1.kva_regions i)) { base = b; size = size; mapped = false }

  new-region : registered.1.kva_regions k.kva_region_count ≡ region_at k.kva_region_count base
  new-region =
      let here : (k.kva_region_count == k1.kva_region_count) ≡ true = ground (arith, lazy-count) in
      rw here (
        ap (λ i. region_at i (aligned_up k1.kva_next_free)) lazy-count
        ∙ ap (region_at k.kva_region_count) (is_next ∙ sym base-is))

  other-region : (i : ℕ) → i ≢ k.kva_region_count → registered.1.kva_regions i ≡ k1.kva_regions i
  other-region i d =
      let off : (i == k1.kva_region_count) ≡ false = ground (arith, lazy-count) in rw off refl

  pub register_region-Registers : Registers name size base k k'
  register_region-Registers = record {
    has_slot = ground (arith, passed.slots, lazy-count);
    pages = ground (arith, passed.whole);
    some_pages = ground (arith, passed.whole);
    is_base = base-is;
    room = room;
    next_free = ap (λ (x : Kva). x.kva_next_free) state-is ∙ omega (arith, is_next, base-is, room);
    one_more = ap (λ (x : Kva). x.kva_region_count) state-is ∙ omega (arith, lazy-count);
    initialized = ap (λ (x : Kva). x.kva_initialized) state-is ∙ lazy-initialized;
    unique = passed.unused;
    new = ap (λ (x : Kva). x.kva_regions k.kva_region_count) state-is ∙ new-region;
    others = λ i d. ap (λ (x : Kva). x.kva_regions i) state-is ∙ other-region i d;
  }

  abbrev n : ℕ
  n = k.kva_region_count

  old-region : (i : ℕ) → i < n → k'.kva_regions i ≡ k.kva_regions i
  old-region i lt =
      let d : i ≢ n = omega arith in register_region-Registers.others i d ∙ lazy-old i lt

  base-old : (i : ℕ) → i < n → base_of k' i ≡ base_of k i
  base-old i lt = ap (λ (r : Region). r.base) (old-region i lt)

  end-old : (i : ℕ) → i < n → end_of k' i ≡ end_of k i
  end-old i lt = ap (λ (r : Region). r.base + r.size) (old-region i lt)

  base-new : base_of k' n ≡ base
  base-new = ap (λ (r : Region). r.base) register_region-Registers.new

  end-new : end_of k' n ≡ base + size
  end-new = ap (λ (r : Region). r.base + r.size) register_region-Registers.new

  -- `kva_register_region` of a size of 32 bits, where it does not panic, keeps the layout: the regions
  -- are whole pages one behind the other, from `KVA_REGION_BASE` to below the window on physical
  -- memory, so that no two meet.
  pub register_region-IsLayout : IsLayout k'
  register_region-IsLayout =
      let r = register_region-Registers in
      record {
        fresh = λ e. absurd (ground (arith, e, r.initialized));
        count = omega (arith, r.one_more, r.has_slot);
        aligned = omega (arith, r.next_free, r.pages, r.is_base, l.aligned);
        low = omega (arith, r.next_free, r.is_base, l.low);
        high = omega (arith, r.next_free, r.room);
        page = λ i lt.
            ground (arith, r.one_more, base-new, r.is_base, l.aligned, base-old i, l.page i);
        above =
            λ i lt. ground (arith, r.one_more, base-new, r.is_base, l.low, base-old i, l.above i);
        within = λ i lt.
            ground (arith, r.one_more, end-new, r.is_base, r.next_free, end-old i, l.within i);
        nonempty = λ i lt. ground (
          arith,
          r.one_more,
          base-new,
          end-new,
          r.some_pages,
          base-old i,
          end-old i,
          l.nonempty i,
        );
        ordered = λ i j ij lt. ground (
          arith,
          r.one_more,
          base-new,
          r.is_base,
          end-old i,
          l.within i,
          base-old j,
          l.ordered i j,
        );
      }
