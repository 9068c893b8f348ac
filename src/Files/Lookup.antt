-- ===== src/Files/Lookup.antt =====
-- The descriptor that a process knows by a number: `sched_get_proc_local_fd` of `kernel/sched.c`.
use unidos.Base.{
  ℕ, zero, suc, ◌≤◌, ◌≡◌, sym, ◌∙◌, ap, arith, ◌==◌, if◌then◌else◌, Option, none, some, inl, inr,
  List, [], ◌∷◌, length,
}
use unidos.Bitmap.Bits.{AreBytes}
use unidos.Chain.{Runs}
use unidos.Dpage.Supply.{Supply}
use unidos.Files.{Files}
use unidos.Files.Table.{IsTable, of_entry, rest-IsTable}
use unidos.Files.Fork.{Descriptors, local_fd_loop, sched_get_proc_local_fd, fd_slots, fde_fork_copy}
use unidos.Files.Fork.Contents.{contents, table-length}
use unidos.Files.Fork.Copy.{AreLive, HasRoom}
use unidos.Files.Fork.Whole.{fde_fork_copy-CopyOf}

-- A table of descriptors as a list of open files and numbers, where the first entry counts.
unfoldable pub lookup : ℕ → List (Option ℕ × ℕ) → Option ℕ
lookup k [] = none
lookup k ((of, id) ∷ es) = if id == k then of else lookup k es

module _ {M : Type 0} (f : Files M) (k : ℕ) where
  loop-lookup :
      (ds : List ℕ) (fuel : ℕ) (a : Option ℕ)
      → length ds ≤ fuel
      → IsTable f a ds
      → local_fd_loop fuel a k f ≡ lookup k (contents f ds)
  unfolding local_fd_loop lookup contents Runs
  loop-lookup [] zero a le t = ap (λ x. local_fd_loop 0 x k f) t.runs
  loop-lookup [] (suc fuel) a le t = ap (λ x. local_fd_loop (suc fuel) x k f) t.runs
  loop-lookup (d ∷ ds) zero a le t = absurd (omega arith)
  loop-lookup (d ∷ ds) (suc fuel) a le t =
      let (start, out, rest) = rest-IsTable f a d ds t in
      ap (λ x. local_fd_loop (suc fuel) x k f) start
      ∙ ap (λ x. if (f.fds d).local_id == k then of_entry f d else x)
          (loop-lookup ds fuel (f.fds d).next (omega arith) rest)

  -- On a well-formed list of descriptors `sched_get_proc_local_fd` is the lookup in the list of open
  -- files and numbers, whatever slots the entries lie in.
  pub get_proc_local_fd-lookup :
      (p : Descriptors) (ds : List ℕ)
      → IsTable f p.fd_list ds
      → sched_get_proc_local_fd (some p) k f ≡ lookup k (contents f ds)
  unfolding sched_get_proc_local_fd
  get_proc_local_fd-lookup p ds t =
      loop-lookup ds fd_slots p.fd_list (table-length f p.fd_list ds t) t

module _ {M : Type 0} (a : Supply M) (f : Files M) (p : Descriptors) (ds : List ℕ)
    (t : IsTable f p.fd_list ds) (bytes : AreBytes f.fd_bitmap) (live : AreLive a f ds)
    (room : HasRoom a f) where
  -- After a fork whose copy of the descriptors is not empty, the child finds every number at the open
  -- file at which the parent found it. Every open file that the list of the parent refers to has a
  -- count, and no count comes near `2 ^ 32`.
  pub get_proc_local_fd-fork :
      (h : ℕ) (g : Files M) (k : ℕ)
      → fde_fork_copy a p.fd_list f ≡ some (some h, g)
      → sched_get_proc_local_fd (some (record { fd_list = some h; fd_count = p.fd_count })) k g
        ≡ sched_get_proc_local_fd (some p) k f
  get_proc_local_fd-fork h g k forked =
      let (s, e, copy) = fde_fork_copy-CopyOf a f p.fd_list ds t bytes live room in
      let same : s ≡ (some h, g) = cc in
      elim (rw same at copy) [
        | inl (cs, tail, adds, says) ↦
            get_proc_local_fd-lookup g k (record { fd_list = some h; fd_count = p.fd_count }) cs
              adds.table
            ∙ ap (lookup k) says
            ∙ sym (get_proc_local_fd-lookup f k p ds t)
        | inr (nothing, back) ↦ absurd cc
      ]
