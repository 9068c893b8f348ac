-- ===== src/Files/Fork.antt =====
-- `fde_fork_copy` of `kernel/io/fdman.c`, and `sched_proc_cleanup_fds` and
-- `sched_get_proc_local_fd` of `kernel/sched.c`.
pub mod Step
pub mod Contents
pub mod Adds
pub mod Copy
pub mod Whole
use unidos.Base.{ℕ, zero, suc, Bool, not, ◌&&◌, ◌==◌, if◌then◌else◌, Option, none, some, is_some}
use unidos.Dpage.Supply.{Supply}
use unidos.Files.{Files, FdEntry, set_entry, open_file_get, drop_entries}
use unidos.Files.Pools.{fdpool_alloc_fdentry}

-- A list has at most as many entries as the pool has slots.
abbrev pub fd_slots : ℕ
fd_slots = 32768

module _ {M : Type 0} where
  -- `if (copy_tail) copy_tail->next = copy;`
  unfoldable pub append_copy : Option ℕ → ℕ → Files M → Files M
  append_copy none c f = f
  append_copy (some t) c f = set_entry t (record (f.fds t) { next = some c }) f

  -- What the new entry `c` takes over from the entry `s`, and the reference it holds.
  unfoldable pub fill_copy : ℕ → ℕ → Files M → Files M
  fill_copy s c f =
      let g =
        set_entry c (record (f.fds c) { of = (f.fds s).of; local_id = (f.fds s).local_id }) f in
      open_file_get (g.fds c).of g

-- `copy_head` after the round, where there was a copy.
abbrev pub head_or : Option ℕ → ℕ → Option ℕ
head_or none c = some c
head_or (some h) c = some h

-- The loop, with at most `fuel` entries left: the head of the copy and the new state. `none` is a
-- panic, or that the fuel is spent.
unfoldable pub fork_loop :
    {M : Type 0}
    → Supply M
    → ℕ
    → Option ℕ
    → Option ℕ
    → Option ℕ
    → Files M
    → Option (Option ℕ × Files M)
fork_loop a fuel none head tail f = some (head, f)
fork_loop a zero (some s) head tail f = none
fork_loop a (suc fuel) (some s) head tail f =
    let (copy, g) = fdpool_alloc_fdentry a (f.fds s).of f in
    elim copy [
      | none ↦ elim (drop_entries fd_slots head g) [ none ↦ none | some h ↦ some (none, h) ]
      | some c ↦
          let h = append_copy tail c (fill_copy s c g) in
          fork_loop a fuel (h.fds s).next (head_or head c) (some c) h
    ]

unfoldable pub fde_fork_copy :
    {M : Type 0} → Supply M → Option ℕ → Files M → Option (Option ℕ × Files M)
fde_fork_copy a src f = fork_loop a fd_slots src none none f

-- Of a process, the list of its descriptors and their number.
pub record Descriptors : Type 0 where
  pub fd_list : Option ℕ
  pub fd_count : ℕ

-- The part of `sched_clone_fork` that copies the descriptors: whether it has worked, the
-- descriptors of the child, and the state.
unfoldable pub fork_descriptors :
    {M : Type 0} → Supply M → Descriptors → Files M → Option (Bool × Descriptors × Files M)
fork_descriptors a parent f = elim (fde_fork_copy a parent.fd_list f) [
  | none ↦ none
  | some (o, g) ↦
      let child : Descriptors = record { fd_list = o; fd_count = parent.fd_count } in
      some (not (not (is_some o) && is_some parent.fd_list), child, g)
]

unfoldable pub sched_proc_cleanup_fds :
    {M : Type 0} → Option Descriptors → Files M → Option (Option Descriptors × Files M)
sched_proc_cleanup_fds none f = some (none, f)
sched_proc_cleanup_fds (some p) f = elim (drop_entries fd_slots p.fd_list f) [
  | none ↦ none
  | some g ↦ some (some (record { fd_list = none; fd_count = 0 }), g)
]

unfoldable pub local_fd_loop : {M : Type 0} → ℕ → Option ℕ → ℕ → Files M → Option ℕ
local_fd_loop fuel none local_fd f = none
local_fd_loop zero (some it) local_fd f = none
local_fd_loop (suc fuel) (some it) local_fd f =
    let rest = local_fd_loop fuel (f.fds it).next local_fd f in
    if (f.fds it).local_id == local_fd then (f.fds it).of else rest

unfoldable pub sched_get_proc_local_fd : {M : Type 0} → Option Descriptors → ℕ → Files M → Option ℕ
sched_get_proc_local_fd none local_fd f = none
sched_get_proc_local_fd (some p) local_fd f = local_fd_loop fd_slots p.fd_list local_fd f
