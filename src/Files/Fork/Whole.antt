-- ===== src/Files/Fork/Whole.antt =====
-- A fork of the descriptors and the exit of the child: `fde_fork_copy` of `kernel/io/fdman.c` and
-- `sched_proc_cleanup_fds` of `kernel/sched.c`.
use unidos.Base.{ℕ, ◌≡◌, refl, ◌∙◌, arith, false, Option, none, some, inl, inr, List, []}
use unidos.Bitmap.Bits.{AreBytes}
use unidos.Chain.{Runs, member, distinct}
use unidos.Dpage.Supply.{Supply}
use unidos.Files.{Files, drop_entries}
use unidos.Files.Table.{IsTable, refs}
use unidos.Files.Drop.{drop_entries-Drops, AreShared, Drops}
use unidos.Files.Fork.{fde_fork_copy, fd_slots, sched_proc_cleanup_fds, Descriptors}
use unidos.Chain.Append
use unidos.Files.Fork.Adds.{Adds}
use unidos.Files.Fork.Contents.{contents, refs-contents, table-length}
use unidos.Files.Fork.Copy.{Restores, CopyOf, AreLive, HasRoom, fork_loop-CopyOf}

module _ {M : Type 0} (a : Supply M) (f : Files M) (src : Option ℕ) (ds : List ℕ)
    (t : IsTable f src ds) (bytes : AreBytes f.fd_bitmap) (live : AreLive a f ds)
    (room : HasRoom a f) where
  nothing-Adds : Adds f none none [] f
  unfolding Runs distinct member refs Append.last
  nothing-Adds = record {
    table = record {
      runs = refl;
      separate = refl;
      allocated = λ i m. absurd cc;
      own = λ i m. absurd cc;
    };
    ends = refl;
    new = λ i m. absurd cc;
    bits = λ i. ground arith;
    bytes = bytes;
    kept = λ i b. refl;
    counts = λ o. omega arith;
    targets = λ o. refl;
    same_file_bits = refl;
    same_ftargets = refl;
  }

  -- `fde_fork_copy` of a well-formed list of descriptors does not panic. Its result is a list in slots
  -- that were free, with the same open files and numbers in the same order, where each open file has
  -- one more reference for each entry that refers to it, and the list of the parent is as it was; or
  -- there was no slot for it, the result is `NULL`, and the entries, the bits of the pool and the
  -- counts are those of before. Every open file that the list refers to has a count, and no count
  -- comes near `2 ^ 32`.
  pub fde_fork_copy-CopyOf :
      (r : Option ℕ × Files M) × (fde_fork_copy a src f ≡ some r) × CopyOf f ds r
  unfolding fde_fork_copy contents
  fde_fork_copy-CopyOf =
      fork_loop-CopyOf a f room ds [] [] fd_slots src none none f (table-length f src ds t) t
        nothing-Adds refl live

  copy-AreShared :
      (g : Files M) (head tail : Option ℕ) (cs : List ℕ)
      → Adds f head tail cs g
      → contents g cs ≡ contents f ds
      → AreShared g cs
  copy-AreShared g head tail cs adds same o pos =
      omega (arith, live o (omega (arith, refs-contents f g o cs ds same)), adds.counts o)

  copy-Restores :
      (g r : Files M) (head tail : Option ℕ) (cs : List ℕ)
      → Adds f head tail cs g
      → Drops g cs r
      → Restores f r
  copy-Restores g r head tail cs adds d = record {
    bits = λ i. d.bits i ∙ ground (arith, adds.bits i, adds.new i);
    kept = λ i b.
        let out : member i cs ≡ false = ground (arith, adds.new i, b) in
        d.entries i ∙ rw out (adds.kept i b);
    counts = λ o. omega (arith, d.counts o, adds.counts o);
    targets = λ o. d.targets o ∙ adds.targets o;
    same_file_bits = d.same_files ∙ adds.same_file_bits;
    same_ftargets = d.same_targets ∙ adds.same_ftargets;
  }

  drop-nothing : (o : Option ℕ) (g : Files M) → o ≡ none → drop_entries fd_slots o g ≡ some g
  unfolding drop_entries
  drop-nothing none g e = refl
  drop-nothing (some d) g e = absurd cc

  cleanup-drops :
      (p : Descriptors) (g r : Files M)
      → drop_entries fd_slots p.fd_list g ≡ some r
      → sched_proc_cleanup_fds (some p) g ≡ some (some (record { fd_list = none; fd_count = 0 }), r)
  unfolding sched_proc_cleanup_fds
  cleanup-drops p g r e = ground (arith, e)

  -- When the child of a fork exits, `sched_proc_cleanup_fds` drops the descriptors that
  -- `fde_fork_copy` has made for it without a panic; then the counts, the entries and the bits are
  -- those of before the fork. Every open file that the list of the parent refers to has a count, and
  -- no count comes near `2 ^ 32`.
  pub cleanup_fds-fork :
      (o : Option ℕ) (g : Files M) (n : ℕ)
      → fde_fork_copy a src f ≡ some (o, g)
      → (r : Files M) × (sched_proc_cleanup_fds (some (record { fd_list = o; fd_count = n })) g
          ≡ some (some (record { fd_list = none; fd_count = 0 }), r))
        × Restores f r
  cleanup_fds-fork o g n forked =
      let (s, e, copy) = fde_fork_copy-CopyOf in
      let same : s ≡ (o, g) = cc in
      elim (rw same at copy) [
        | inl (cs, tail, adds, says) ↦
            let (r, d, drops) =
              drop_entries-Drops cs fd_slots g o (table-length g o cs adds.table) adds.table
                adds.bytes (copy-AreShared g o tail cs adds says) in
            (
              r,
              cleanup-drops (record { fd_list = o; fd_count = n }) g r d,
              copy-Restores g r o tail cs adds drops,
            )
        | inr (nothing, back) ↦ (
          g,
          cleanup-drops (record { fd_list = o; fd_count = n }) g g (drop-nothing o g nothing),
          back,
        )
      ]
