-- ===== src/Dpage/Supply.antt =====
-- The slots of demand-paged pools as their users see them: the calls of `dpage_alloc` of
-- `kernel/dpage.c` that `kernel/io/fdpool.c` makes, whatever memory lies below.
use unidos.Base.{ℕ, ◌<◌, ◌≡◌, true, false, ◌==◌, if◌then◌else◌, Option, none, some, ◌⊎◌, inl, inr}
use unidos.Bitmap.Bits.{Bytes, AreBytes, test_bit}
use unidos.Paging.{Paging}
use unidos.Dpage.{Pool, slot_count, dpage_alloc, dpage_bm_slot_to_vaddr}
use unidos.Dpage.Slot.{dpage_alloc-MeetsSlots}

-- The free slot `s` has been marked, and no other bit has changed.
pub record Marks (k : Pool) (s : ℕ) (b b' : Bytes) : Type 0 where
  pub in_pool : s < slot_count k
  pub was_free : test_bit b s ≡ false
  pub marked : (j : ℕ) → test_bit b' j ≡ (if j == s then true else test_bit b j)
  pub bytes : AreBytes b'

abbrev pub Same : Bytes → Bytes → Type 0
Same b b' = ((j : ℕ) → test_bit b' j ≡ test_bit b j) × AreBytes b'

-- A free slot at its address, or none and the bits as they were.
abbrev pub Supplies : Pool → Bytes → Option ℕ → Bytes → Type 0
Supplies k b o b' =
    ((s : ℕ) × (o ≡ some (dpage_bm_slot_to_vaddr s k.vaddr_base k.element_size)) × Marks k s b b')
    ⊎ ((o ≡ none) × Same b b')

-- `M` is the memory below the pools.
pub record Supply (M : Type 0) : Type 0 where
  pub take : Pool → Bytes → M → Option ℕ × Bytes × M
  pub law :
      (k : Pool) (b : Bytes) (m : M)
      → AreBytes b
      → let (o, b', m') = take k b m in Supplies k b o b'

-- `dpage_alloc` on the paging of `kernel/paging.c` is such a supply of slots.
unfoldable pub dpage_supply : Supply Paging
dpage_supply = record {
  take = λ k b m.
      let (st, o, h) = dpage_alloc k (record { bitmap = b; paging = m }) in (o, h.bitmap, h.paging);
  law = λ k b m bytes. elim (dpage_alloc-MeetsSlots k (record { bitmap = b; paging = m }) bytes) [
    | inl (s, ok, at, t) ↦ inl (
      s,
      at,
      record { in_pool = t.in_pool; was_free = t.was_free; marked = t.taken; bytes = t.bytes },
    )
    | inr (bad, nothing, r) ↦ inr (nothing, (r.same_bits, r.bytes))
  ];
}
