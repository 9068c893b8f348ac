-- ===== src/Sched/Family.antt =====
-- The pool of processes, and the lists of the children of each.
pub mod Children
pub mod Zombie
use unidos.Base.{
  ℕ, zero, suc, ◌+◌, ◌-◌, ◌^◌, Bool, true, false, not, ◌&&◌, ◌||◌, ◌==◌, if◌then◌else◌, Option,
  none, some, is_some,
}
use unidos.Chain.{Links, link, advance, cut_from}
use unidos.Circular.{find_from}
use unidos.Sched.{Sched, is_zombie}

-- The first slot that is free, or that holds the process with the number `pid`.
unfoldable pub alloc_process_slot : Sched → Option ℕ
alloc_process_slot s =
    find_from (λ i. not (s.process_pool i).slot_inuse) s.process_pool_count s.process_pool_count 0

unfoldable pub proc_find : ℕ → Sched → Option ℕ
proc_find pid s =
    find_from (λ i. (s.process_pool i).slot_inuse && (s.process_pool i).pid == pid)
      s.process_pool_count s.process_pool_count 0

abbrev pub sibling_links : Sched → Links
sibling_links s c = (s.process_pool c).next_sibling

abbrev pub children_of : Sched → ℕ → Option ℕ
children_of s p = (s.process_pool p).first_child

abbrev pub set_sibling_links : Links → Sched → Sched
set_sibling_links links s = record s {
  process_pool = λ c. record (s.process_pool c) { next_sibling = links c };
}

abbrev pub set_children : ℕ → Option ℕ → Sched → Sched
set_children p v s = record s {
  process_pool =
      λ q. record (s.process_pool q) { first_child = if q == p then v else children_of s q };
}

-- `child->parent` and `child->ppid`
abbrev pub set_parent : ℕ → Option ℕ → ℕ → Sched → Sched
set_parent c v ppid s = record s {
  process_pool = λ q. record (s.process_pool q) {
    parent = if q == c then v else (s.process_pool q).parent;
    ppid = if q == c then ppid else (s.process_pool q).ppid;
  };
}

unfoldable pub append_child : ℕ → ℕ → Sched → Sched
append_child p c s = elim (children_of s p) [
  | none ↦ set_children p (some c) s
  | some f ↦
      let it = advance s.process_pool_count (sibling_links s) (λ n. true) f in
      set_sibling_links (link it (some c) (sibling_links s)) s
]

-- Neither pointer is `NULL`.
unfoldable pub proc_add_child : ℕ → ℕ → Sched → Sched
proc_add_child p c s = append_child p c (set_parent c (some p) (s.process_pool p).pid s)

unfoldable pub unlink_child : ℕ → ℕ → Sched → Sched
unlink_child p c s = elim (children_of s p) [
  | none ↦ s
  | some f ↦
      if f == c
      then set_children p (sibling_links s c) s
      else set_sibling_links (cut_from s.process_pool_count f c (sibling_links s)) s
]

unfoldable pub proc_remove_child : ℕ → ℕ → Sched → Sched
proc_remove_child p c s = set_parent c none 0 (unlink_child p c s)

-- `match_pid && child->state == PROC_ZOMBIE`; -1 is the largest word.
abbrev pub is_reapable : Sched → ℕ → ℕ → Bool
is_reapable s pid c =
    (pid == 2 ^ 32 - 1 || (s.process_pool c).pid == pid) && is_zombie (s.process_pool c).state

unfoldable pub zombie_loop : ℕ → Sched → ℕ → Option ℕ → Option ℕ
zombie_loop zero s pid child = none
zombie_loop (suc fuel) s pid child = elim child [
  | none ↦ none
  | some c ↦
      let rest = zombie_loop fuel s pid (sibling_links s c) in
      if is_reapable s pid c then some c else rest
]

-- A process that is its own child is a panic, and is left out.
unfoldable pub proc_find_zombie_child : ℕ → ℕ → Sched → Option ℕ
proc_find_zombie_child p pid s = zombie_loop s.process_pool_count s pid (children_of s p)

unfoldable pub proc_has_children : ℕ → Sched → Bool
proc_has_children p s = is_some (children_of s p)
