-- ===== src/Files/Count.antt =====
-- The counts of open files and their targets: `kernel/io/openfile.c` with `kernel/io/fdpool.c`.
use unidos.Base.{
  ℕ, ◌+◌, ◌-◌, ◌^◌, ◌<◌, ◌≡◌, refl, arith, ◌==◌, if◌then◌else◌, Option, none, some, inl, inr,
}
use unidos.Bitmap.Bits.{Bytes, AreBytes, test_bit, test_bit-clear}
use unidos.Dpage.{dpage_bm_slot_to_vaddr, dpage_bm_clear}
use unidos.Dpage.Supply.{Supply, Marks}
use unidos.Files.{
  Files, OpenFile, type_openfile, no_file, openfile_pool, slot_of, set_file, set_target,
  file_target_get, file_target_put, open_file_get, open_file_put, fdpool_free_openfile,
}
use unidos.Files.Pools.{fdpool_alloc_openfile}
use unidos.Files.Table.{count_of}

module _ {M : Type 0} where
  abbrev pub target_count : Files M → ℕ → ℕ
  target_count f t = (f.ftargets t).refcount

  abbrev fewer : ℕ → Files M → Files M
  fewer o f = set_file o (record (f.openfiles o) { refcount = count_of f o - 1 }) f

  put-shared :
      (o : ℕ) (f : Files M) → 1 < count_of f o → open_file_put (some o) f ≡ some (fewer o f)
  unfolding open_file_put
  put-shared o f many = ground arith

  target_put-shared :
      (t : ℕ) (f : Files M)
      → 1 < target_count f t
      → file_target_put (some t) f
        ≡ some (set_target t (record (f.ftargets t) { refcount = target_count f t - 1 }) f)
  unfolding file_target_put
  target_put-shared t f many = ground arith

  put-once :
      (o t : ℕ) (f h : Files M)
      → count_of f o ≡ 1
      → (f.openfiles o).target ≡ some t
      → file_target_put (some t) (fewer o f) ≡ some h
      → open_file_put (some o) f ≡ some (fdpool_free_openfile (some o) h)
  unfolding open_file_put
  put-once o t f h e q p = ground (arith, e, q, p)

  get-counts :
      (o : ℕ) (f : Files M) (u : ℕ)
      → count_of f o + 1 < 2 ^ 32
      → count_of (open_file_get (some o) f) u ≡ count_of f u + (if u == o then 1 else 0)
  unfolding open_file_get
  get-counts o f u room = ground arith

  fewer-counts :
      (o : ℕ) (f : Files M) (u : ℕ)
      → count_of (fewer o f) u ≡ count_of f u - (if u == o then 1 else 0)
  fewer-counts o f u = ground arith

  get-ftargets : (o : ℕ) (f : Files M) → (open_file_get (some o) f).ftargets ≡ f.ftargets
  unfolding open_file_get
  get-ftargets o f = refl

  -- The reference that `open_file_get` has taken of a file in use is given back by `open_file_put`:
  -- the counts of all files and the targets are those of before. The count is below `2 ^ 32 - 1`.
  put-get :
      (o : ℕ) (f : Files M)
      → 0 < count_of f o
      → count_of f o + 1 < 2 ^ 32
      → (r : Files M) × (open_file_put (some o) (open_file_get (some o) f) ≡ some r)
        × ((u : ℕ) → count_of r u ≡ count_of f u)
        × (r.ftargets ≡ f.ftargets)
  put-get o f pos room =
      let g = open_file_get (some o) f in
      (
        fewer o g,
        put-shared o g (ground (arith, get-counts o f o room)),
        λ u. ground (arith, fewer-counts o g u, get-counts o f u room),
        get-ftargets o f,
      )

module _ {M : Type 0} (a : Supply M) (t : ℕ) (f : Files M) (bytes : AreBytes f.openfile_bitmap)
    (pos : 0 < target_count f t) (room : target_count f t + 1 < 2 ^ 32) where
  abbrev taken : Option ℕ × Bytes × M
  taken = a.take openfile_pool f.openfile_bitmap f.pages

  abbrev new_file : ℕ → OpenFile
  new_file o = record {
    kind = type_openfile;
    refcount = 1;
    offset = 0;
    target = some t;
    pool_id = o;
  }

  abbrev with_file : ℕ → Files M
  with_file o =
      file_target_get (some t)
        (set_file o (new_file o) (record f { openfile_bitmap = taken.1; pages = taken.2 }))

  slot_of-openfile :
      (s : ℕ) → s < 32768 → slot_of openfile_pool (dpage_bm_slot_to_vaddr s 0xe4000000 40) ≡ s
  unfolding dpage_bm_slot_to_vaddr
  slot_of-openfile s lt = omega arith

  alloc_openfile-some :
      (s : ℕ)
      → s < 32768
      → taken.0
        ≡ some (dpage_bm_slot_to_vaddr s openfile_pool.vaddr_base openfile_pool.element_size)
      → fdpool_alloc_openfile a (some t) f ≡ (some s, with_file s)
  unfolding fdpool_alloc_openfile
  alloc_openfile-some s lt at = ground (arith, at, slot_of-openfile s lt)

  alloc_openfile-none : taken.0 ≡ none → (fdpool_alloc_openfile a (some t) f).0 ≡ none
  unfolding fdpool_alloc_openfile
  alloc_openfile-none at = ground (arith, at)

  -- The file with its count of 1 given back: the reference to the target is dropped first, then the
  -- slot is free.
  abbrev closed : ℕ → Files M
  closed o =
      let g = fewer o (with_file o) in
      fdpool_free_openfile (some o)
        (set_target t (record (g.ftargets t) { refcount = target_count g t - 1 }) g)

  once : (o : ℕ) → count_of (with_file o) o ≡ 1
  unfolding file_target_get
  once o = ground arith

  on_target : (o : ℕ) → ((with_file o).openfiles o).target ≡ some t
  unfolding file_target_get
  on_target o = ground arith

  referred : (o : ℕ) → target_count (fewer o (with_file o)) t ≡ target_count f t + 1
  unfolding file_target_get
  referred o = ground arith

  put-last : (o : ℕ) → open_file_put (some o) (with_file o) ≡ some (closed o)
  put-last o =
      put-once o t (with_file o) _ (once o) (on_target o)
        (target_put-shared t (fewer o (with_file o)) (omega (arith, referred o)))

  closed-count : (o u : ℕ) → target_count (closed o) u ≡ target_count f u
  unfolding fdpool_free_openfile file_target_get
  closed-count o u = ground arith

  closed-file : (o : ℕ) → (closed o).openfiles o ≡ no_file
  unfolding fdpool_free_openfile file_target_get
  closed-file o = ground arith

  closed-bit :
      (o : ℕ)
      → Marks openfile_pool o f.openfile_bitmap taken.1
      → (i : ℕ) → test_bit (closed o).openfile_bitmap i ≡ test_bit f.openfile_bitmap i
  unfolding fdpool_free_openfile file_target_get dpage_bm_clear
  closed-bit o m i =
      ground (arith, m.in_pool, m.marked i, m.was_free, test_bit-clear taken.1 m.bytes o i)

  -- To close a file that has just been opened on a target frees its slot and gives the reference to
  -- the target back: the bits of the pool and the counts of all targets are those of before. The
  -- target has a count below `2 ^ 32 - 1`.
  pub put-alloc_openfile :
      (o : ℕ)
      → (fdpool_alloc_openfile a (some t) f).0 ≡ some o
      → (r : Files M) × (open_file_put (some o) (fdpool_alloc_openfile a (some t) f).1 ≡ some r)
        × ((u : ℕ) → target_count r u ≡ target_count f u)
        × ((i : ℕ) → test_bit r.openfile_bitmap i ≡ test_bit f.openfile_bitmap i)
        × (r.openfiles o ≡ no_file)
  put-alloc_openfile o got = elim (a.law openfile_pool f.openfile_bitmap f.pages bytes) [
    | inr (nothing, same) ↦ absurd (ground (arith, alloc_openfile-none nothing))
    | inl (s, at, m) ↦
        let e = alloc_openfile-some s m.in_pool at in
        let same : o ≡ s = ground (arith, e) in
        rw same (rw e (closed s, put-last s, closed-count s, closed-bit s m, closed-file s))
  ]
