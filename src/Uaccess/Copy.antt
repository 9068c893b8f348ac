-- ===== src/Uaccess/Copy.antt =====
-- `copyout` and `copyin`.
use unidos.Base.{ℕ, ◌+◌, ◌^◌, ◌≤◌, ◌<◌, ◌≡◌, ◌≢◌, Bool, true, false, ◌↔◌, arith}
use unidos.Paging.{Paging, page_of, kernel_virtual_base}
use unidos.Uaccess.{
  Machine, esuccess, range_check, page_allows, pages_allow, kmemcpy, copyin, phys_of,
}
use unidos.Uaccess.Bytes.{Apart, loop-paging, loop-other, loop-copied}
use unidos.Uaccess.Checks.{range_check-user, range_check-kernel, pages_allow-all}

-- Every page of `[start, start + n)` is mapped, for the user, and writable on request.
abbrev pub PagesAllow : Paging → Bool → ℕ → ℕ → Type 0
PagesAllow p write start n =
    (a : ℕ) → start ≤ a → a < start + n → page_allows p write (page_of a) ≡ true

-- `[k, k + n)` lies in the kernel's half and `[u, u + n)` in the user's, whose pages allow the copy.
pub record MayCopy (p : Paging) (write : Bool) (k u n : ℕ) : Type 0 where
  pub kernel_start : kernel_virtual_base ≤ k
  pub kernel_end : k + n ≤ 2 ^ 32
  pub user_start : u ≢ 0
  pub user_end : u + n ≤ kernel_virtual_base
  pub pages : PagesAllow p write u n

-- Of physical memory no byte has changed but those that the `n` bytes at `dest` are; and these are what
-- the bytes at `src` were, where none of them is a byte of the source too, or another one of the target.
pub record IsCopied (dest src n : ℕ) (m m' : Machine) : Type 0 where
  pub same_tables : m'.paging ≡ m.paging
  pub others :
      (a : ℕ) → ((j : ℕ) → j < n → phys_of m.paging (dest + j) ≢ a) → m'.bytes a ≡ m.bytes a
  pub copied :
      Apart m.paging dest src n
      → (j : ℕ) → j < n
      → m'.bytes (phys_of m.paging (dest + j)) ≡ m.bytes (phys_of m.paging (src + j))

kmemcpy-IsCopied : (dest src n : ℕ) (m : Machine) → IsCopied dest src n m (kmemcpy dest src n m)
unfolding kmemcpy
kmemcpy-IsCopied dest src n m = record {
  same_tables = loop-paging dest src n 0 m;
  others = λ a out. loop-other dest src n 0 a m (λ j le lt. out j (omega arith));
  copied =
      λ apart j lt. loop-copied dest src n 0 j n m apart (omega arith) (omega arith) (omega arith);
}

module _ (k u n : ℕ) (write : Bool) (m : Machine) (k_word : k < 2 ^ 32) (u_word : u < 2 ^ 32)
    (size : n < 2 ^ 32) (some_bytes : 0 < n) where
  -- The checks of both calls together.
  checks-MayCopy :
      ((k ≢ 0)
        × (u ≢ 0)
        × (range_check k n false ≡ true)
        × (range_check u n true ≡ true)
        × (pages_allow m.paging write u n ≡ true))
      ↔ MayCopy m.paging write k u n
  checks-MayCopy = (
    λ (k0, u0, kr, ur, pr).
        let in_kernel = (range_check-kernel k n k_word size some_bytes).0 kr in
        let in_user = (range_check-user u n u_word size some_bytes).0 ur in
        record {
          kernel_start = in_kernel.0;
          kernel_end = in_kernel.1;
          user_start = u0;
          user_end = in_user;
          pages = (pages_allow-all m.paging write u n some_bytes (omega (arith, in_user))).0 pr;
        },
    λ c. (
      omega (arith, c.kernel_start),
      c.user_start,
      (range_check-kernel k n k_word size some_bytes).1 (c.kernel_start, c.kernel_end),
      (range_check-user u n u_word size some_bytes).1 c.user_end,
      (pages_allow-all m.paging write u n some_bytes (omega (arith, c.user_end))).1 c.pages,
    ),
  )

module _ (usrc kdest n : ℕ) (m : Machine) (usrc_word : usrc < 2 ^ 32) (kdest_word : kdest < 2 ^ 32)
    (size : n < 2 ^ 32) (some_bytes : 0 < n) where
  copyin-checks : ((copyin true usrc kdest n m).0 ≡ esuccess) ↔ (
      (kdest ≢ 0)
      × (usrc ≢ 0)
      × (range_check kdest n false ≡ true)
      × (range_check usrc n true ≡ true)
      × (pages_allow m.paging false usrc n ≡ true))
  unfolding copyin
  copyin-checks = ground arith

  copyin-done :
      (copyin true usrc kdest n m).0 ≡ esuccess
      → (copyin true usrc kdest n m).1 ≡ kmemcpy kdest usrc n m
  unfolding copyin
  copyin-done ok = ground arith

  copyin-failed : (copyin true usrc kdest n m).0 ≢ esuccess → (copyin true usrc kdest n m).1 ≡ m
  unfolding copyin
  copyin-failed bad = ground arith

  -- `copyin`, called from kernel mode for at least one byte, with words of 32 bits, succeeds
  -- exactly when the source lies in the user's half and the target in the kernel's, and every page
  -- of the source is mapped and for the user. Then, in physical memory, no byte changes but those of
  -- the target, and these become those of the source, where none of them is one of the source or is
  -- found twice in the target; on failure nothing changes.
  pub copyin-MayCopy :
      let (r, m') = copyin true usrc kdest n m in
      ((r ≡ esuccess) ↔ MayCopy m.paging false kdest usrc n)
      × ((r ≡ esuccess) → IsCopied kdest usrc n m m')
      × ((r ≢ esuccess) → m' ≡ m)
  copyin-MayCopy =
      let checks = checks-MayCopy kdest usrc n false m kdest_word usrc_word size some_bytes in
      (
        (λ ok. checks.0 (copyin-checks.0 ok), λ c. copyin-checks.1 (checks.1 c)),
        λ ok. rw (copyin-done ok) (kmemcpy-IsCopied kdest usrc n m),
        copyin-failed,
      )
