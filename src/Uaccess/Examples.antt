-- ===== src/Uaccess/Examples.antt =====
-- The copies of `kernel/uaccess.c` on the small machine of the paging examples.
use unidos.Base.{ℕ, ◌+◌, ◌*◌, ◌<◌, ◌%◌, ◌≡◌, refl, true, arith}
use unidos.Paging.Examples.{paged}
use unidos.Paging.{paging_query_page, pde_index, pte_index}
use unidos.Uaccess.{
  Machine, esuccess, efault, copyout, range_check, pages_allow, pages_loop, page_allows, phys_of,
}
use unidos.Uaccess.Bytes.{Apart}

abbrev user_machine : Machine
user_machine = record { paging = paged; bytes = λ a. a % 251 }

-- The page of 0x403010 allows both; page 0x404000 is not mapped.
copyout_works : (copyout true 0xc0001000 0x403010 16 user_machine).0 ≡ esuccess
unfolding copyout range_check pages_allow pages_loop page_allows paging_query_page
copyout_works = refl

copyout_fails : (copyout true 0xc0001000 0x403ff8 16 user_machine).0 ≡ efault
unfolding copyout range_check pages_allow pages_loop page_allows paging_query_page
copyout_fails = refl

-- The target lies in frame 13, and the source is read from frame 0.
target_at : (i : ℕ) → i < 16 → phys_of paged (0x403010 + i) ≡ 13 * 4096 + 0x10 + i
unfolding phys_of
target_at i lt =
    let directory : pde_index (0x403010 + i) ≡ 1 = omega arith in
    let table : pte_index (0x403010 + i) ≡ 3 = omega arith in
    let low : (0x403010 + i) % 4096 ≡ 0x10 + i = omega arith in
    rw (directory, table, low) (omega arith)

source_at : (i : ℕ) → i < 16 → phys_of paged (0xc0001000 + i) ≡ 0 + i
unfolding phys_of
source_at i lt =
    let directory : pde_index (0xc0001000 + i) ≡ 768 = omega arith in
    let table : pte_index (0xc0001000 + i) ≡ 1 = omega arith in
    let low : (0xc0001000 + i) % 4096 ≡ i = omega arith in rw (directory, table, low) refl

ranges-Apart : Apart paged 0x403010 0xc0001000 16
ranges-Apart = record {
  no_source = λ i j li lj q. absurd (omega (arith, q, target_at i li, source_at j lj));
  no_twice = λ i j lt lj q. absurd (omega (arith, q, target_at i (omega arith), target_at j lj));
}
