-- ===== src/Files/Pools.antt =====
-- The slots of `kernel/io/fdpool.c`: allocation and lookup.
use unidos.Base.{
  ℕ, ◌/◌, ◌<◌, ◌≡◌, ◌⊎◌, refl, arith, false, not, ◌==◌, leb, if◌then◌else◌, Option, none, some, inl,
  inr,
}
use unidos.Bitmap.Bits.{Bytes, AreBytes}
use unidos.Dpage.{Pool, dpage_is_allocated, dpage_bm_slot_to_vaddr}
use unidos.Dpage.Supply.{Supply, Marks, Same}
use unidos.Files.{
  Files, KobjectType, type_openfile, FileTarget, OpenFile, FdEntry, openfile_pool, fd_pool,
  ftarget_pool, slot_of, set_target, set_file, set_entry, file_target_get,
}

-- `vaddr_size_bytes / sizeof(...)`; the bytes are 0x3fff000 for each of the pools.
abbrev pub vaddr_slots : Pool → ℕ
vaddr_slots k = 0x3fff000 / k.element_size

module _ {M : Type 0} (a : Supply M) where
  -- The pointer, if there is one, is named by the number of its slot.
  unfoldable pub fdpool_alloc_fdentry : Option ℕ → Files M → Option ℕ × Files M
  fdpool_alloc_fdentry of f =
      let (ret, bitmap, pages) = a.take fd_pool f.fd_bitmap f.pages in
      let g : Files M = record f { fd_bitmap = bitmap; pages = pages } in
      elim ret [
        | none ↦ (none, g)
        | some vaddr ↦
            let d = slot_of fd_pool vaddr in
            (some d, set_entry d (record { fd_id = d; of = of; next = none; local_id = 0 }) g)
      ]

  unfoldable pub fdpool_alloc_openfile : Option ℕ → Files M → Option ℕ × Files M
  fdpool_alloc_openfile target f =
      let (ret, bitmap, pages) = a.take openfile_pool f.openfile_bitmap f.pages in
      let g : Files M = record f { openfile_bitmap = bitmap; pages = pages } in
      elim ret [
        | none ↦ (none, g)
        | some vaddr ↦
            let o = slot_of openfile_pool vaddr in
            let file : OpenFile = record {
              kind = type_openfile;
              refcount = 1;
              offset = 0;
              target = target;
              pool_id = o;
            } in
            (some o, file_target_get target (set_file o file g))
      ]

  unfoldable pub fdpool_alloc_ftarget : KobjectType → Files M → Option ℕ × Files M
  fdpool_alloc_ftarget kind f =
      let (ret, bitmap, pages) = a.take ftarget_pool f.ftarget_bitmap f.pages in
      let g : Files M = record f { ftarget_bitmap = bitmap; pages = pages } in
      elim ret [
        | none ↦ (none, g)
        | some vaddr ↦
            let t = slot_of ftarget_pool vaddr in
            let target : FileTarget = record {
              kind = kind;
              refcount = 1;
              read = none;
              write = none;
              pool_id = t;
            } in
            (some t, set_target t target g)
      ]

module _ {M : Type 0} where
  unfoldable pub fdpool_get_openfile : ℕ → Files M → Option ℕ
  fdpool_get_openfile index f =
      if leb (vaddr_slots openfile_pool) index
      then none
      else if not (dpage_is_allocated index f.openfile_bitmap 4096)
      then none
      else some index

  unfoldable pub fdpool_get_fdentry : ℕ → Files M → Option ℕ
  fdpool_get_fdentry index f =
      if leb (vaddr_slots fd_pool) index
      then none
      else if not (dpage_is_allocated index f.fd_bitmap 4096)
      then none
      else some index

  unfoldable pub fdpool_get_ftarget : ℕ → Files M → Option ℕ
  fdpool_get_ftarget index f =
      if leb (vaddr_slots ftarget_pool) index
      then none
      else if not (dpage_is_allocated index f.ftarget_bitmap 4096)
      then none
      else some index

-- The number of a slot comes back from its address.
slot_of-vaddr : (s : ℕ) → s < 32768 → slot_of fd_pool (dpage_bm_slot_to_vaddr s 0xe8000000 16) ≡ s
unfolding dpage_bm_slot_to_vaddr
slot_of-vaddr s lt = omega arith

-- A slot that was free is the new entry, and every other entry and bit is as it was.
pub record Allocs {M : Type 0} (of : Option ℕ) (d : ℕ) (f g : Files M) : Type 0 where
  pub marks : Marks fd_pool d f.fd_bitmap g.fd_bitmap
  pub entry : g.fds d ≡ record { fd_id = d; of = of; next = none; local_id = 0 }
  pub others : (i : ℕ) → (i == d) ≡ false → g.fds i ≡ f.fds i
  pub same_files : g.openfiles ≡ f.openfiles
  pub same_file_bits : g.openfile_bitmap ≡ f.openfile_bitmap
  pub same_targets : g.ftargets ≡ f.ftargets

pub record Lacks {M : Type 0} (f g : Files M) : Type 0 where
  pub bits : Same f.fd_bitmap g.fd_bitmap
  pub same_entries : g.fds ≡ f.fds
  pub same_files : g.openfiles ≡ f.openfiles
  pub same_file_bits : g.openfile_bitmap ≡ f.openfile_bitmap
  pub same_targets : g.ftargets ≡ f.ftargets

module _ {M : Type 0} (a : Supply M) (of : Option ℕ) (f : Files M)
    (bytes : AreBytes f.fd_bitmap) where
  abbrev pub Meets : Option ℕ × Files M → Type 0
  Meets (o, g) = ((d : ℕ) × (o ≡ some d) × Allocs of d f g) ⊎ ((o ≡ none) × Lacks f g)

  abbrev taken : Option ℕ × Bytes × M
  taken = a.take fd_pool f.fd_bitmap f.pages

  abbrev behind : Files M
  behind = record f { fd_bitmap = taken.1; pages = taken.2 }

  abbrev fresh : ℕ → FdEntry
  fresh d = record { fd_id = d; of = of; next = none; local_id = 0 }

  alloc_fdentry-some :
      (s : ℕ)
      → s < 32768
      → taken.0 ≡ some (dpage_bm_slot_to_vaddr s fd_pool.vaddr_base fd_pool.element_size)
      → fdpool_alloc_fdentry a of f ≡ (some s, set_entry s (fresh s) behind)
  unfolding fdpool_alloc_fdentry
  alloc_fdentry-some s lt at = ground (arith, at, slot_of-vaddr s lt)

  alloc_fdentry-none : taken.0 ≡ none → fdpool_alloc_fdentry a of f ≡ (none, behind)
  unfolding fdpool_alloc_fdentry
  alloc_fdentry-none at = ground (arith, at)

  pub alloc_fdentry-Meets : Meets (fdpool_alloc_fdentry a of f)
  alloc_fdentry-Meets = elim (a.law fd_pool f.fd_bitmap f.pages bytes) [
    | inl (s, at, m) ↦ rw (alloc_fdentry-some s m.in_pool at) (
        inl (
          s,
          refl,
          record {
            marks = m;
            entry = ground arith;
            others = λ i d. rw d refl;
            same_files = refl;
            same_file_bits = refl;
            same_targets = refl;
          },
        ))
    | inr (nothing, same) ↦ rw (alloc_fdentry-none nothing) (
        inr (
          refl,
          record {
            bits = same;
            same_entries = refl;
            same_files = refl;
            same_file_bits = refl;
            same_targets = refl;
          },
        ))
  ]
