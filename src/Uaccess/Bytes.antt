-- ===== src/Uaccess/Bytes.antt =====
-- What `kmemcpy` of `kernel/include/kmain.h` does to the bytes of physical memory.
use unidos.Base.{
  ℕ, zero, suc, ◌+◌, ◌≤◌, ◌<◌, ◌≡◌, ◌≢◌, refl, sym, ◌∙◌, arith, ◌==◌, inl, inr, Bool-cases,
}
use unidos.Paging.{Paging}
use unidos.Uaccess.{Machine, phys_of, copy_byte, copy_loop}

-- No byte of the target is one of the source, or another one of the target.
pub record Apart (p : Paging) (dest src n : ℕ) : Type 0 where
  pub no_source : (i j : ℕ) → i < n → j < n → phys_of p (dest + i) ≢ phys_of p (src + j)
  pub no_twice : (i j : ℕ) → i < j → j < n → phys_of p (dest + i) ≢ phys_of p (dest + j)

module _ (dest src : ℕ) where
  byte-here :
      (i : ℕ) (m : Machine)
      → (copy_byte dest src i m).bytes (phys_of m.paging (dest + i))
        ≡ m.bytes (phys_of m.paging (src + i))
  byte-here i m = ground arith

  byte-other :
      (i a : ℕ) (m : Machine)
      → phys_of m.paging (dest + i) ≢ a
      → (copy_byte dest src i m).bytes a ≡ m.bytes a
  byte-other i a m d = ground arith

  pub loop-paging : (n i : ℕ) (m : Machine) → (copy_loop n i dest src m).paging ≡ m.paging
  unfolding copy_loop
  loop-paging zero i m = refl
  loop-paging (suc n) i m = loop-paging n (i + 1) (copy_byte dest src i m)

  pub loop-other :
      (n i a : ℕ) (m : Machine)
      → ((j : ℕ) → i ≤ j → j < i + n → phys_of m.paging (dest + j) ≢ a)
      → (copy_loop n i dest src m).bytes a ≡ m.bytes a
  unfolding copy_loop
  loop-other zero i a m out = refl
  loop-other (suc n) i a m out =
      loop-other n (i + 1) a (copy_byte dest src i m) (λ j le lt. out j (omega arith) (omega arith))
      ∙ byte-other i a m (out i (omega arith) (omega arith))

  pub loop-copied :
      (n i j all : ℕ) (m : Machine)
      → Apart m.paging dest src all
      → i + n ≤ all
      → i ≤ j
      → j < i + n
      → (copy_loop n i dest src m).bytes (phys_of m.paging (dest + j))
        ≡ m.bytes (phys_of m.paging (src + j))
  unfolding copy_loop
  loop-copied zero i j all m apart le lo hi = absurd (omega arith)
  loop-copied (suc n) i j all m apart le lo hi = elim (Bool-cases (i == j)) [
    | inl c ↦
        let same : i ≡ j = ground (arith, c) in
        rw (← same) (
          loop-other n (i + 1) (phys_of m.paging (dest + i)) (copy_byte dest src i m)
            (λ u lu hu q. apart.no_twice i u (omega arith) (omega arith) (sym q))
          ∙ byte-here i m)
    | inr c ↦
        loop-copied n (i + 1) j all (copy_byte dest src i m) apart (omega arith) (ground (arith, c))
          (omega arith)
        ∙ byte-other i (phys_of m.paging (src + j)) m
            (apart.no_source i j (omega arith) (omega arith))
  ]
