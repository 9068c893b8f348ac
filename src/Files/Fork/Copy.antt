-- ===== src/Files/Fork/Copy.antt =====
-- `fde_fork_copy` of `kernel/io/fdman.c`: the whole copy, or the state of before.
use unidos.Base.{
  ℕ, zero, suc, ◌+◌, ◌^◌, ◌≤◌, ◌<◌, ◌≡◌, ◌⊎◌, refl, sym, ◌∙◌, ap, arith, true, false, Option, none,
  some, inl, inr, List, [], ◌∷◌, ◌++◌, length, append_nil, append_assoc,
}
use unidos.Bitmap.Bits.{test_bit}
use unidos.Chain.{Runs, member}
use unidos.Dpage.Supply.{Supply}
use unidos.Files.{Files, FdEntry, OpenFile, drop_entries}
use unidos.Files.Pools.{Lacks, fdpool_alloc_fdentry, alloc_fdentry-Meets}
use unidos.Files.Table.{
  IsTable, count_of, of_entry, refs, refs-same, refs-append, same-IsTable, rest-IsTable,
}
use unidos.Files.Drop.{drop_entries-Drops, AreShared, Drops}
use unidos.Files.Fork.{append_copy, fill_copy, fork_loop, head_or, fd_slots}
use unidos.Files.Fork.Adds.{Adds, round-Adds, round-contents, h}
use unidos.Files.Fork.Contents.{contents, contents-append, refs-contents, refs-length, table-length}

module _ {M : Type 0} where
  -- The descriptors, their bits and the counts are those of before.
  pub record Restores (f g : Files M) : Type 0 where
    pub bits : (i : ℕ) → test_bit g.fd_bitmap i ≡ test_bit f.fd_bitmap i
    pub kept : (i : ℕ) → test_bit f.fd_bitmap i ≡ true → g.fds i ≡ f.fds i
    pub counts : (o : ℕ) → count_of g o ≡ count_of f o
    pub targets : (o : ℕ) → (g.openfiles o).target ≡ (f.openfiles o).target
    pub same_file_bits : g.openfile_bitmap ≡ f.openfile_bitmap
    pub same_ftargets : g.ftargets ≡ f.ftargets

  -- The copy `cs` of the entries `ds`, or none.
  abbrev pub CopyOf : Files M → List ℕ → Option ℕ × Files M → Type 0
  CopyOf f ds (o, g) =
      ((cs : List ℕ) × (tail : Option ℕ) × Adds f o tail cs g × (contents g cs ≡ contents f ds))
      ⊎ ((o ≡ none) × Restores f g)

  no_more : (f : Files M) (src : Option ℕ) → IsTable f src [] → src ≡ none
  unfolding Runs
  no_more f src t = t.runs

  one-more :
      (f g : Files M) (s : ℕ) (pre cs : List ℕ)
      → contents g cs ≡ contents f pre
      → g.fds s ≡ f.fds s
      → contents g cs ++ (of_entry g s, (g.fds s).local_id) ∷ [] ≡ contents f (pre ++ s ∷ [])
  one-more f g s pre cs same e =
      let last : contents f (pre ++ s ∷ [])
          ≡ contents f pre ++ (of_entry f s, (f.fds s).local_id) ∷ [] =
        contents-append f s pre in
      rw same (ap (λ (x : FdEntry). contents f pre ++ (x.of, x.local_id) ∷ []) e ∙ sym last)

  first-allocated :
      (f : Files M) (src : Option ℕ) (s : ℕ) (ds : List ℕ)
      → IsTable f src (s ∷ ds)
      → test_bit f.fd_bitmap s ≡ true
  unfolding member
  first-allocated f src s ds t = t.allocated s (ground arith)

  module _ (a : Supply M) (f0 : Files M) where
    loop-none :
        (fuel : ℕ) (src head tail : Option ℕ) (f : Files M)
        → src ≡ none
        → fork_loop a fuel src head tail f ≡ some (head, f)
    unfolding fork_loop
    loop-none zero none head tail f e = refl
    loop-none (suc fuel) none head tail f e = refl
    loop-none fuel (some s) head tail f e = absurd cc

    abbrev allocated : ℕ → Files M → Option ℕ × Files M
    allocated s f = fdpool_alloc_fdentry a (of_entry f s) f

    loop-copy :
        (fuel s c : ℕ) (head tail : Option ℕ) (f : Files M)
        → (allocated s f).0 ≡ some c
        → let next = append_copy tail c (fill_copy s c (allocated s f).1) in
          fork_loop a (suc fuel) (some s) head tail f
          ≡ fork_loop a fuel (next.fds s).next (head_or head c) (some c) next
    unfolding fork_loop
    loop-copy fuel s c head tail f e = ground (arith, e)

    loop-lack :
        (fuel s : ℕ) (head tail : Option ℕ) (f r : Files M)
        → (allocated s f).0 ≡ none
        → drop_entries fd_slots head (allocated s f).1 ≡ some r
        → fork_loop a (suc fuel) (some s) head tail f ≡ some (none, r)
    unfolding fork_loop
    loop-lack fuel s head tail f r e d = ground (arith, e, d)

    -- There was no slot for a further copy: the copies so far are dropped.
    module _ (f g : Files M) (head tail : Option ℕ) (cs pre : List ℕ)
        (so_far : Adds f0 head tail cs f) (same : contents f cs ≡ contents f0 pre)
        (lacks : Lacks f g) (live : (o : ℕ) → 0 < refs f0 o pre → 0 < count_of f0 o) where
      g-IsTable : IsTable g head cs
      g-IsTable =
          same-IsTable f g head cs (λ i m. ap (λ (r : ℕ → FdEntry). r i) lacks.same_entries)
            (λ i m. lacks.bits.0 i ∙ so_far.table.allocated i m) so_far.table

      g-refs : (o : ℕ) → refs g o cs ≡ refs f o cs
      g-refs o = refs-same f g o cs (λ i m. ap (λ (r : ℕ → FdEntry). r i) lacks.same_entries)

      g-count : (o : ℕ) → count_of g o ≡ count_of f0 o + refs g o cs
      g-count o =
          ap (λ (r : ℕ → OpenFile). (r o).refcount) lacks.same_files
          ∙ omega (arith, so_far.counts o, g-refs o)

      g-AreShared : AreShared g cs
      g-AreShared o pos =
          omega
            (arith, live o (omega (arith, refs-contents f0 f o cs pre same, g-refs o)), g-count o)

      dropped-Restores : (r : Files M) → Drops g cs r → Restores f0 r
      dropped-Restores r d = record {
        bits = λ i. d.bits i ∙ ground (arith, lacks.bits.0 i, so_far.bits i, so_far.new i);
        kept = λ i b.
            let out : member i cs ≡ false = ground (arith, so_far.new i, b) in
            d.entries i
            ∙ rw out (ap (λ (q : ℕ → FdEntry). q i) lacks.same_entries ∙ so_far.kept i b);
        counts = λ o. omega (arith, d.counts o, g-count o);
        targets = λ o.
            d.targets o
            ∙ ap (λ (q : ℕ → OpenFile). (q o).target) lacks.same_files
            ∙ so_far.targets o;
        same_file_bits = d.same_files ∙ lacks.same_file_bits ∙ so_far.same_file_bits;
        same_ftargets = d.same_targets ∙ lacks.same_targets ∙ so_far.same_ftargets;
      }

      g-dropped : (r : Files M) × (drop_entries fd_slots head g ≡ some r) × Restores f0 r
      g-dropped =
          let (r, e, d) =
            drop_entries-Drops cs fd_slots g head (table-length f head cs so_far.table) g-IsTable
              lacks.bits.1 g-AreShared in
          (r, e, dropped-Restores r d)

    -- Every open file that a source refers to has a count, and no count comes near `2 ^ 32`.
    abbrev pub AreLive : List ℕ → Type 0
    AreLive ds = (o : ℕ) → 0 < refs f0 o ds → 0 < count_of f0 o

    abbrev pub HasRoom : Type 0
    HasRoom = (o : ℕ) → count_of f0 o + 32768 + 1 < 2 ^ 32

    pub fork_loop-CopyOf :
        HasRoom
        → (ds pre cs : List ℕ) (fuel : ℕ) (src head tail : Option ℕ) (f : Files M)
        → length ds ≤ fuel
        → IsTable f0 src ds
        → Adds f0 head tail cs f
        → contents f cs ≡ contents f0 pre
        → AreLive (pre ++ ds)
        → (r : Option ℕ × Files M) × (fork_loop a fuel src head tail f ≡ some r)
          × CopyOf f0 (pre ++ ds) r
    fork_loop-CopyOf room [] pre cs fuel src head tail f le t so_far same live = (
      (head, f),
      loop-none fuel src head tail f (no_more f0 src t),
      inl (cs, tail, so_far, same ∙ ap (contents f0) (sym (append_nil pre))),
    )
    fork_loop-CopyOf room (s ∷ ds) pre cs zero src head tail f le t so_far same live =
        absurd (omega arith)
    fork_loop-CopyOf room (s ∷ ds) pre cs (suc fuel) src head tail f le t so_far same live =
        let (start, out, rest) = rest-IsTable f0 src s ds t in
        let here = first-allocated f0 src s ds t in
        elim (alloc_fdentry-Meets a (of_entry f s) f so_far.bytes) [
          | inl (c, e, got) ↦
              let bound = table-length f head cs so_far.table in
              let more : (o : ℕ) → count_of f o + 1 < 2 ^ 32 =
                λ o. omega (arith, room o, so_far.counts o, refs-length f o cs, bound) in
              let g = (allocated s f).1 in
              let next = h f0 f g head tail cs s c so_far here got more in
              let adds = round-Adds f0 f g head tail cs s c so_far here got more in
              let says = round-contents f0 f g head tail cs s c so_far here got more in
              let join = append_assoc pre (s ∷ []) ds in
              let (r, e2, copy) =
                fork_loop-CopyOf room ds (pre ++ s ∷ []) (cs ++ c ∷ []) fuel (f0.fds s).next
                  (head_or head c) (some c) next (omega arith) rest adds
                  (says ∙ one-more f0 f s pre cs same (so_far.kept s here)) (rw join live) in
              (
                r,
                ap (λ x. fork_loop a (suc fuel) x head tail f) start
                    ∙ loop-copy fuel s c head tail f e
                    ∙ ap (λ x. fork_loop a fuel x (head_or head c) (some c) next)
                        (ap (λ x. x.next) (adds.kept s here))
                    ∙ e2,
                rw join at copy,
              )
          | inr (e, lacks) ↦
              let (r, d, back) =
                g-dropped f (allocated s f).1 head tail cs pre so_far same lacks
                  (λ o pos. live o (omega (arith, refs-append f0 o pre (s ∷ ds)))) in
              (
                (none, r),
                ap (λ x. fork_loop a (suc fuel) x head tail f) start
                    ∙ loop-lack fuel s head tail f r e d,
                inr (refl, back),
              )
        ]
