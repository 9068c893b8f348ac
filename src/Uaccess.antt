-- ===== src/Uaccess.antt =====
-- `kernel/uaccess.c`: copies between kernel and user memory, with their checks.
mod Checks
mod Bytes
mod Copy
mod Examples
use unidos.Base.{
  ℕ, zero, suc, ◌+◌, ◌-◌, ◌*◌, ◌/◌, ◌%◌, ◌^◌, Bool, true, false, not, ◌&&◌, ◌||◌, ◌==◌, leb, ltb,
  if◌then◌else◌, u32,
}
use unidos.Pmm.Reserve.{PagingStatus, paging_ok}
use unidos.Paging.{
  entry, pde_index, pte_index, Paging, kernel_virtual_base, is_user, page_of, paging_query_page,
}

-- The error codes that the two calls give.
pub data Errno : Type 0 where
  esuccess : Errno
  eperm : Errno
  efault : Errno

-- `bytes` is the physical memory, whose bytes may be seen at several virtual addresses: all of it is
-- mapped in the window at `PHYS_WINDOW_BASE` too.
pub record Machine : Type 0 where
  pub paging : Paging
  pub bytes : ℕ → ℕ

abbrev pub is_user_vaddr : ℕ → Bool
is_user_vaddr virt_addr = ltb virt_addr kernel_virtual_base

abbrev pub is_kernel_vaddr : ℕ → Bool
is_kernel_vaddr virt_addr = leb kernel_virtual_base virt_addr

unfoldable pub range_check : ℕ → ℕ → Bool → Bool
range_check start n want_user =
    let end = u32 (start + u32 (n - 1)) in
    if n == 0
    then true
    else if ltb end start
    then false
    else if want_user
    then is_user_vaddr start && is_user_vaddr end
    else is_kernel_vaddr start && is_kernel_vaddr end

abbrev pub is_ok : PagingStatus → Bool
is_ok paging_ok = true
is_ok _ = false

-- Bit 1 of the flags.
abbrev pub is_writable : ℕ → Bool
is_writable flags = flags / 2 % 2 == 1

-- What the loop asks of the page at `va`: mapped, for the user, and writable on request.
unfoldable pub page_allows : Paging → Bool → ℕ → Bool
page_allows p write va =
    let (status, res) = paging_query_page p va in
    (is_ok status && res.mapped) && (is_user res.flags && (not write || is_writable res.flags))

-- `for (va = first_page;; va += 0x1000u)` up to `last_page`
unfoldable pub pages_loop : ℕ → Paging → Bool → ℕ → ℕ → Bool
pages_loop zero p write va last_page = false
pages_loop (suc fuel) p write va last_page =
    let rest = pages_loop fuel p write (u32 (va + 0x1000)) last_page in
    page_allows p write va && (va == last_page || rest)

-- The pages of the range, one round for each.
unfoldable pub pages_allow : Paging → Bool → ℕ → ℕ → Bool
pages_allow p write start n =
    let last_page = page_of (u32 (start + u32 (n - 1))) in
    pages_loop ((last_page - page_of start) / 4096 + 1) p write (page_of start) last_page

-- Where the processor finds the byte at a virtual address, by the tables of the directory in `cr3`;
-- the kernel's own addresses are taken to be mapped.
unfoldable pub phys_of : Paging → ℕ → ℕ
phys_of p va =
    page_of (entry p (page_of (entry p (page_of p.cr3) (pde_index va))) (pte_index va)) + va % 4096

-- `d[i] = s[i]`. The tables lie in memory that is kept apart.
abbrev pub copy_byte : ℕ → ℕ → ℕ → Machine → Machine
copy_byte dest src i m = record m {
  bytes = λ a.
      if a == phys_of m.paging (dest + i) then m.bytes (phys_of m.paging (src + i)) else m.bytes a;
}

-- The loop of `kmemcpy` with `n` bytes left, from byte `i` on. The ranges have been checked not to
-- wrap around.
unfoldable pub copy_loop : ℕ → ℕ → ℕ → ℕ → Machine → Machine
copy_loop zero i dest src m = m
copy_loop (suc n) i dest src m = copy_loop n (i + 1) dest src (copy_byte dest src i m)

unfoldable pub kmemcpy : ℕ → ℕ → ℕ → Machine → Machine
kmemcpy dest src n m = copy_loop n 0 dest src m

-- `kernel` is `get_current_cpl() == CPL_KERNEL`. The code is `*err_out`; the result is always 0.
unfoldable pub copyout : Bool → ℕ → ℕ → ℕ → Machine → Errno × Machine
copyout kernel ksrc udest n m =
    if not kernel
    then (eperm, m)
    else if ksrc == 0 || udest == 0
    then (efault, m)
    else if n == 0
    then (esuccess, m)
    else if not (range_check ksrc n false)
    then (efault, m)
    else if not (range_check udest n true)
    then (efault, m)
    else if not (pages_allow m.paging true udest n)
    then (efault, m)
    else (esuccess, kmemcpy udest ksrc n m)

unfoldable pub copyin : Bool → ℕ → ℕ → ℕ → Machine → Errno × Machine
copyin kernel usrc kdest n m =
    if not kernel
    then (eperm, m)
    else if usrc == 0 || kdest == 0
    then (efault, m)
    else if n == 0
    then (esuccess, m)
    else if not (range_check usrc n true)
    then (efault, m)
    else if not (range_check kdest n false)
    then (efault, m)
    else if not (pages_allow m.paging false usrc n)
    then (efault, m)
    else (esuccess, kmemcpy kdest usrc n m)
