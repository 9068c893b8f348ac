-- ===== src/Files/Drop.antt =====
-- Dropping a list of descriptors: the error path of `fde_fork_copy` in `kernel/io/fdman.c` and
-- `sched_proc_cleanup_fds` in `kernel/sched.c`.
use unidos.Base.{
  ℕ, zero, suc, ◌+◌, ◌-◌, ◌≤◌, ◌<◌, ◌≡◌, refl, ap, ◌∙◌, arith, false, ◌==◌, if◌then◌else◌, Option,
  none, some, Option-cases, inl, inr, List, [], ◌∷◌, length,
}
use unidos.Bitmap.Bits.{AreBytes, test_bit, test_bit-clear, clear_bit-AreBytes}
use unidos.Chain.{Runs, member, member-differs}
use unidos.Dpage.{dpage_bm_clear}
use unidos.Files.{Files, no_entry, set_file, open_file_put, drop_entries, fdpool_free_fdentry}
use unidos.Files.Table.{
  IsTable, SameEntries, count_of, of_entry, refs, refs-same, same-IsTable, rest-IsTable,
}

module _ {M : Type 0} where
  -- The entries of the list are free slots, each open file has lost the references that they held,
  -- and nothing else has changed.
  pub record Drops (f : Files M) (ds : List ℕ) (g : Files M) : Type 0 where
    pub counts : (o : ℕ) → count_of g o + refs f o ds ≡ count_of f o
    pub targets : (o : ℕ) → (g.openfiles o).target ≡ (f.openfiles o).target
    pub entries : (i : ℕ) → g.fds i ≡ (if member i ds then no_entry else f.fds i)
    pub bits :
        (i : ℕ) → test_bit g.fd_bitmap i ≡ (if member i ds then false else test_bit f.fd_bitmap i)
    pub bytes : AreBytes g.fd_bitmap
    pub same_files : g.openfile_bitmap ≡ f.openfile_bitmap
    pub same_targets : g.ftargets ≡ f.ftargets

  -- Every file that the list refers to is referred to from elsewhere too.
  abbrev pub AreShared : Files M → List ℕ → Type 0
  AreShared f ds = (o : ℕ) → 0 < refs f o ds → refs f o ds < count_of f o

  module _ (f : Files M) (bytes : AreBytes f.fd_bitmap) (d : ℕ) (ds : List ℕ)
      (id : (f.fds d).fd_id ≡ d) (lt : d < 32768) where
    abbrev dropped : Option ℕ → Files M
    dropped none = fdpool_free_fdentry (some d) f
    dropped (some o) =
        fdpool_free_fdentry (some d)
          (set_file o (record (f.openfiles o) { refcount = count_of f o - 1 }) f)

    put-shared :
        (o : ℕ)
        → 1 < count_of f o
        → open_file_put (some o) f
          ≡ some (set_file o (record (f.openfiles o) { refcount = count_of f o - 1 }) f)
    unfolding open_file_put
    put-shared o many = ground arith

    free-bit :
        (i : ℕ)
        → test_bit (dpage_bm_clear (f.fds d).fd_id f.fd_bitmap 4096) i
          ≡ (if i == d then false else test_bit f.fd_bitmap i)
    unfolding dpage_bm_clear
    free-bit i = ground (arith, id, test_bit-clear f.fd_bitmap bytes (f.fds d).fd_id i)

    free-AreBytes : AreBytes (dpage_bm_clear (f.fds d).fd_id f.fd_bitmap 4096)
    unfolding dpage_bm_clear
    free-AreBytes i =
        ground (arith, bytes i, clear_bit-AreBytes f.fd_bitmap (f.fds d).fd_id bytes i)

    -- One entry is dropped.
    dropped-Drops :
        (o : Option ℕ) → of_entry f d ≡ o → AreShared f (d ∷ []) → Drops f (d ∷ []) (dropped o)
    unfolding fdpool_free_fdentry refs member
    dropped-Drops none e shared = record {
      counts = λ o. ground (arith, e);
      targets = λ o. refl;
      entries = λ i. ground arith;
      bits = λ i. ground (arith, free-bit i);
      bytes = free-AreBytes;
      same_files = refl;
      same_targets = refl;
    }
    dropped-Drops (some o) e shared = record {
      counts = λ u. ground (arith, e, shared o);
      targets = λ u. ground arith;
      entries = λ i. ground arith;
      bits = λ i. ground (arith, free-bit i);
      bytes = free-AreBytes;
      same_files = refl;
      same_targets = refl;
    }

  nothing-Drops : (f : Files M) → AreBytes f.fd_bitmap → Drops f [] f
  unfolding refs member
  nothing-Drops f bytes = record {
    counts = λ o. omega arith;
    targets = λ o. refl;
    entries = λ i. refl;
    bits = λ i. refl;
    bytes = bytes;
    same_files = refl;
    same_targets = refl;
  }

  module _ (f g : Files M) (d : ℕ) (ds : List ℕ) (out : member d ds ≡ false)
      (one : Drops f (d ∷ []) g) where
    others-same : SameEntries f g ds
    unfolding member
    others-same i m = one.entries i ∙ ground (arith, member-differs d i ds out m)

    rest-refs : (o : ℕ) → refs g o ds ≡ refs f o ds
    rest-refs o = refs-same f g o ds others-same

    then-Drops : (h : Files M) → Drops g ds h → Drops f (d ∷ ds) h
    unfolding refs member
    then-Drops h two = record {
      counts = λ o. omega (arith, one.counts o, two.counts o, rest-refs o);
      targets = λ o. two.targets o ∙ one.targets o;
      entries = λ i. two.entries i ∙ ground (arith, one.entries i);
      bits = λ i. two.bits i ∙ ground (arith, one.bits i);
      bytes = two.bytes;
      same_files = two.same_files ∙ one.same_files;
      same_targets = two.same_targets ∙ one.same_targets;
    }

    then-IsTable : (a : Option ℕ) → IsTable f a ds → IsTable g a ds
    unfolding member
    then-IsTable a t =
        same-IsTable f g a ds others-same
          (λ i m. one.bits i ∙ ground (arith, member-differs d i ds out m, t.allocated i m)) t

    then-AreShared : AreShared f (d ∷ ds) → AreShared g ds
    unfolding refs
    then-AreShared shared o pos =
        omega (arith, shared o (omega (arith, rest-refs o)), one.counts o, rest-refs o)

  first-AreShared :
      (f : Files M) (d : ℕ) (ds : List ℕ) → AreShared f (d ∷ ds) → AreShared f (d ∷ [])
  unfolding refs
  first-AreShared f d ds shared o pos = omega (arith, shared o (omega arith))

  put-none : (f : Files M) → open_file_put none f ≡ some f
  unfolding open_file_put
  put-none f = refl

  many : (f : Files M) (d o : ℕ) → of_entry f d ≡ some o → AreShared f (d ∷ []) → 1 < count_of f o
  unfolding refs
  many f d o e shared = ground (arith, e, shared o)

  drop-step :
      (fuel d : ℕ) (f g : Files M)
      → open_file_put (of_entry f d) f ≡ some g
      → drop_entries (suc fuel) (some d) f
        ≡ drop_entries fuel (f.fds d).next (fdpool_free_fdentry (some d) g)
  unfolding drop_entries
  drop-step fuel d f g e = ground (arith, e)

  drop-none :
      (fuel : ℕ) (f : Files M) (a : Option ℕ) → IsTable f a [] → drop_entries fuel a f ≡ some f
  unfolding drop_entries Runs
  drop-none zero f a t = rw t.runs refl
  drop-none (suc fuel) f a t = rw t.runs refl

  drop-one :
      (fuel : ℕ) (f : Files M) (a : Option ℕ) (d : ℕ) (ds : List ℕ)
      → IsTable f a (d ∷ ds)
      → AreBytes f.fd_bitmap
      → AreShared f (d ∷ ds)
      → (g : Files M) × (drop_entries (suc fuel) (some d) f ≡ drop_entries fuel (f.fds d).next g)
        × Drops f (d ∷ []) g
  unfolding member
  drop-one fuel f a d ds t bytes shared =
      let (id, lt) = t.own d (ground arith) in
      let one = first-AreShared f d ds shared in
      elim (Option-cases (of_entry f d)) [
        | inl e ↦ (
          dropped f bytes d ds id lt none,
          drop-step fuel d f f (rw e (put-none f)),
          dropped-Drops f bytes d ds id lt none e one,
        )
        | inr (o, e) ↦ (
          dropped f bytes d ds id lt (some o),
          drop-step fuel d f _ (rw e (put-shared f bytes d ds id lt o (many f d o e one))),
          dropped-Drops f bytes d ds id lt (some o) e one,
        )
      ]

  -- A list of descriptors is dropped without a panic, each entry once, where every open file that it
  -- refers to is referred to from elsewhere too; as many rounds as entries are enough.
  pub drop_entries-Drops :
      (ds : List ℕ) (fuel : ℕ) (f : Files M) (a : Option ℕ)
      → length ds ≤ fuel
      → IsTable f a ds
      → AreBytes f.fd_bitmap
      → AreShared f ds
      → (g : Files M) × (drop_entries fuel a f ≡ some g) × Drops f ds g
  drop_entries-Drops [] fuel f a le t bytes shared =
      (f, drop-none fuel f a t, nothing-Drops f bytes)
  drop_entries-Drops (d ∷ ds) zero f a le t bytes shared = absurd (omega arith)
  drop_entries-Drops (d ∷ ds) (suc fuel) f a le t bytes shared =
      let (start, out, rest) = rest-IsTable f a d ds t in
      let (g, e, one) = drop-one fuel f a d ds t bytes shared in
      let (h, e2, two) =
        drop_entries-Drops ds fuel g (f.fds d).next (omega arith)
          (then-IsTable f g d ds out one _ rest) one.bytes
          (then-AreShared f g d ds out one shared) in
      (h, ap (λ x. drop_entries (suc fuel) x f) start ∙ e ∙ e2, then-Drops f g d ds out one h two)
