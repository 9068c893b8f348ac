-- ===== src/Files/Examples.antt =====
-- The theorems on `kernel/io` at a process with two descriptors of one open file.
use unidos.Base.{
  ℕ, ◌<◌, ◌≡◌, ◌⊎◌, refl, arith, true, ◌==◌, if◌then◌else◌, Option, none, some, List, [], ◌∷◌, inl,
  inr,
}
use unidos.Bitmap.Byte.{byte_test, byte_set}
use unidos.Bitmap.Bits.{AreBytes, test_bit, set_bit}
use unidos.Chain.{Runs, member, distinct}
use unidos.Pmm.Examples.{machine}
use unidos.Paging.{
  Paging, paging_map_page, flag_error, ensure_table, map_entry, pt_ptr_from_pdi, new_table,
  install_table, store,
}
use unidos.Dpage.Examples.{on_machine}
use unidos.Dpage.{
  find_slot, dpage_bm_set, dpage_bm_slot_to_vaddr, dpage_alloc, commit_pages, page_round,
  demand_map, need_map, settle,
}
use unidos.Pmm.Alloc.{pmm_get_next_available_block, take_block}
use unidos.Pmm.Regions.{pmm_is_region_reserved, overlaps}
use unidos.Dpage.Supply.{dpage_supply}
use unidos.Files.{
  Files, no_target, no_file, no_entry, type_stream, type_openfile, count, open_file_get,
}
use unidos.Files.Table.{IsTable, refs}
use unidos.Files.Fork.{
  Descriptors, fork_loop, append_copy, fill_copy, fde_fork_copy, sched_proc_cleanup_fds,
  sched_get_proc_local_fd,
}
use unidos.Files.Fork.Copy.{CopyOf, Restores, AreLive, HasRoom}
use unidos.Files.Fork.Contents.{contents}
use unidos.Files.Fork.Whole.{fde_fork_copy-CopyOf, cleanup_fds-fork}
use unidos.Files.Lookup.{lookup, get_proc_local_fd-lookup, get_proc_local_fd-fork}
use unidos.Files.Pools.{fdpool_alloc_fdentry}
use unidos.Files.Transfer.{open_file_write, open_file_write-Reports, Reports}

-- The pools lie on the machine of the demand-paged pools. Target 0 is a stream, open file 0 has it
-- as its target, and descriptors 0 and 1 refer to that file.
abbrev stdio : Files Paging
stdio = record {
  openfile_bitmap = λ i. if i == 0 then 1 else 0;
  fd_bitmap = λ i. if i == 0 then 3 else 0;
  ftarget_bitmap = λ i. if i == 0 then 1 else 0;
  openfiles = λ i.
      if i == 0
      then record { kind = type_openfile; refcount = 3; offset = 0; target = some 0; pool_id = 0 }
      else no_file;
  fds = λ i.
      if i == 0
      then record { fd_id = 0; of = some 0; next = some 1; local_id = 0 }
      else if i == 1
      then record { fd_id = 1; of = some 0; next = none; local_id = 1 }
      else no_entry;
  ftargets = λ i.
      if i == 0
      then record {
        kind = type_stream;
        refcount = 2;
        read = none;
        write = some (λ t b l o. count l);
        pool_id = 0;
      }
      else no_target;
  pages = on_machine machine;
}

abbrev both : List ℕ
both = 0 ∷ 1 ∷ []

both-own : (i : ℕ) → member i both ≡ true → ((stdio.fds i).fd_id ≡ i) × (i < 32768)
unfolding member
both-own i m = ground arith

bit_0 : test_bit stdio.fd_bitmap 0 ≡ true
unfolding test_bit byte_test
bit_0 = refl

bit_1 : test_bit stdio.fd_bitmap 1 ≡ true
unfolding test_bit byte_test
bit_1 = refl

two-cases : (i : ℕ) → member i both ≡ true → (i ≡ 0) ⊎ (i ≡ 1)
unfolding member
two-cases i m = ground arith

both-allocated : (i : ℕ) → member i both ≡ true → test_bit stdio.fd_bitmap i ≡ true
unfolding member
both-allocated i m = elim (two-cases i m) [ inl e ↦ rw e bit_0 | inr e ↦ rw e bit_1 ]

both-IsTable : IsTable stdio (some 0) both
unfolding Runs distinct member
both-IsTable = record {
  runs = (refl, (refl, refl));
  separate = refl;
  allocated = both-allocated;
  own = both-own;
}

stdio-AreBytes : AreBytes stdio.fd_bitmap
stdio-AreBytes i = ground arith

stdio-AreLive : AreLive dpage_supply stdio both
unfolding refs
stdio-AreLive o pos = ground arith

stdio-HasRoom : HasRoom dpage_supply stdio
stdio-HasRoom o = ground arith

fde_fork_copy-CopyOf_example :
    (r : Option ℕ × Files Paging) × (fde_fork_copy dpage_supply (some 0) stdio ≡ some r)
    × CopyOf stdio both r
fde_fork_copy-CopyOf_example =
    fde_fork_copy-CopyOf dpage_supply stdio (some 0) both both-IsTable stdio-AreBytes stdio-AreLive
      stdio-HasRoom

-- The entries of the copy lie in the slots 2 and 3.
abbrev head_of : Option (Option ℕ × Files Paging) → Option ℕ
head_of none = none
head_of (some (o, g)) = o

abbrev state_of : Option (Option ℕ × Files Paging) → Files Paging
state_of none = stdio
state_of (some (o, g)) = g

abbrev forked : Files Paging
forked = state_of (fde_fork_copy dpage_supply (some 0) stdio)

forked_ok : fde_fork_copy dpage_supply (some 0) stdio ≡ some (some 2, forked)
unfolding fde_fork_copy fork_loop fdpool_alloc_fdentry append_copy fill_copy open_file_get
    dpage_supply dpage_alloc find_slot commit_pages page_round demand_map need_map settle
    dpage_bm_set dpage_bm_slot_to_vaddr paging_map_page flag_error ensure_table map_entry
    pt_ptr_from_pdi new_table install_table store pmm_get_next_available_block take_block
    pmm_is_region_reserved overlaps test_bit byte_test set_bit byte_set
forked_ok = refl

cleanup_fds-fork_example :
    (r : Files Paging) × (sched_proc_cleanup_fds
        (some (record { fd_list = some 2; fd_count = 2 }))
        forked
      ≡ some (some (record { fd_list = none; fd_count = 0 }), r))
    × Restores stdio r
cleanup_fds-fork_example =
    cleanup_fds-fork dpage_supply stdio (some 0) both both-IsTable stdio-AreBytes stdio-AreLive
      stdio-HasRoom (some 2) forked 2 forked_ok

abbrev parent : Descriptors
parent = record { fd_list = some 0; fd_count = 2 }

get_proc_local_fd-lookup_example :
    sched_get_proc_local_fd (some parent) 1 stdio ≡ lookup 1 (contents stdio both)
get_proc_local_fd-lookup_example = get_proc_local_fd-lookup stdio 1 parent both both-IsTable

get_proc_local_fd-fork_example :
    sched_get_proc_local_fd (some (record { fd_list = some 2; fd_count = 2 })) 1 forked
    ≡ sched_get_proc_local_fd (some parent) 1 stdio
get_proc_local_fd-fork_example =
    get_proc_local_fd-fork dpage_supply stdio parent both both-IsTable stdio-AreBytes stdio-AreLive
      stdio-HasRoom 2 forked 1 forked_ok

open_file_write-Reports_example :
    Reports (some 0) 0 5 0 stdio (open_file_write (some 0) 0 5 0 stdio)
open_file_write-Reports_example = open_file_write-Reports stdio 0 5 0 (some 0)
