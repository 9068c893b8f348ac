-- ===== src/Paging/Tables.antt =====
-- The page directory and the page tables as one map from virtual pages to entries.
use unidos.Base.{
  ℕ, ◌/◌, ◌%◌, ◌^◌, ◌<◌, ◌≡◌, ◌≢◌, refl, true, arith, ◌==◌, if◌then◌else◌, inl, inr, some,
  Bool-cases,
}
use unidos.Bitmap.Bits.{test_bit}
use unidos.Pmm.State.{Pmm}
use unidos.Pmm.State.Invariant.{IsValid}
use unidos.Pmm.Reserve.{PagingStatus, paging_ok, err_not_mapped}
use unidos.Paging.{
  Paging, QueryResult, no_result, is_present, pde_index, pte_index, page_of, entry, pde, store,
  pt_ptr_from_pdi, paging_query_page,
}

-- The page table of a present directory entry: a frame that is taken, that is neither frame 0 nor
-- the directory, and that `page_tables_loc_phys` names.
pub record IsTable (p : Paging) (i : ℕ) : Type 0 where
  pub located : p.page_tables_loc_phys i ≡ page_of (pde p i)
  pub nonzero : pde p i / 4096 ≢ 0
  pub apart : pde p i / 4096 ≢ p.page_directory_loc_phys / 4096
  pub taken : test_bit p.pmm.pagebitmap (pde p i / 4096) ≡ true

pub record IsWellFormed (p : Paging) : Type 0 where
  pub initialized : p.page_directory_loc_phys ≢ 0
  pub aligned : p.page_directory_loc_phys % 4096 ≡ 0
  pub memory : IsValid p.pmm
  pub first_taken : test_bit p.pmm.pagebitmap 0 ≡ true
  pub directory_taken : test_bit p.pmm.pagebitmap (p.page_directory_loc_phys / 4096) ≡ true
  pub tables : (i : ℕ) → i < 1024 → is_present (pde p i) ≡ true → IsTable p i
  pub distinct :
      (i j : ℕ)
      → i < 1024
      → j < 1024
      → i ≢ j
      → is_present (pde p i) ≡ true
      → is_present (pde p j) ≡ true
      → pde p i / 4096 ≢ pde p j / 4096

-- The entry of a virtual address; 0, which is not present, where there is no page table.
abbrev pub entry_at : Paging → ℕ → ℕ
entry_at p v =
    if is_present (pde p (pde_index v))
    then entry p (page_of (pde p (pde_index v))) (pte_index v)
    else 0

-- What an entry says.
abbrev pub decode : ℕ → PagingStatus × QueryResult
decode e =
    if is_present e
    then (paging_ok, record { mapped = true; phys_addr = page_of e; flags = e % 4096 })
    else (err_not_mapped, no_result)

pub store-hit : (p : Paging) (t i w : ℕ) → entry (store t i w p) t i ≡ w
unfolding store
store-hit p t i w = ground arith

pub store-other_entry : (p : Paging) (t i w j : ℕ) → i ≢ j → entry (store t i w p) t j ≡ entry p t j
unfolding store
store-other_entry p t i w j d = ground arith

pub store-other_table :
    (p : Paging) (t i w u j : ℕ)
    → i < 1024
    → j < 1024
    → t % 4096 ≡ 0
    → u % 4096 ≡ 0
    → t / 4096 ≢ u / 4096
    → entry (store t i w p) u j ≡ entry p u j
unfolding store
store-other_table p t i w u j li lj at au d = ground arith

pub pt_ptr_from_pdi-present :
    (p : Paging) (i : ℕ)
    → i < 1024
    → IsWellFormed p
    → is_present (pde p i) ≡ true
    → pt_ptr_from_pdi p i ≡ some (page_of (pde p i))
unfolding pt_ptr_from_pdi
pt_ptr_from_pdi-present p i lt w e = let t = w.tables i lt e in ground (arith, t.located, t.nonzero)

-- With the kernel's own directory in `cr3`, a query reads the entry of the address.
pub query_page-entry_at :
    (p : Paging) (v : ℕ)
    → IsWellFormed p
    → p.cr3 ≡ p.page_directory_loc_phys
    → paging_query_page p v ≡ decode (entry_at p v)
unfolding paging_query_page
query_page-entry_at p v w same =
    let here : page_of p.cr3 ≡ p.page_directory_loc_phys = omega (arith, same, w.aligned) in
    rw here (ground (arith, w.initialized))

pub memory-IsValid : (s : Pmm) (m : ℕ → ℕ) → IsValid s → IsValid (record s { memory = m })
memory-IsValid s m v = record {
  ready = v.ready;
  bytes = v.bytes;
  small = v.small;
  hint = v.hint;
  counted = v.counted;
  below = v.below;
  guarded = v.guarded;
}

-- An entry of the page table behind directory entry `i` is written.
module _ (p : Paging) (i k e : ℕ) (w : IsWellFormed p) (li : i < 1024) (lk : k < 1024)
    (here : is_present (pde p i) ≡ true) where
  abbrev written : Paging
  written = store (page_of (pde p i)) k e p

  pub write-pde : (j : ℕ) → j < 1024 → pde written j ≡ pde p j
  unfolding store
  write-pde j lj =
      store-other_table p (page_of (pde p i)) k e p.page_directory_loc_phys j lk lj (omega arith)
        w.aligned (omega (arith, (w.tables i li here).apart))

  pub write-bitmap : written.pmm.pagebitmap ≡ p.pmm.pagebitmap
  unfolding store
  write-bitmap = refl

  pub write-IsWellFormed : IsWellFormed written
  unfolding store
  write-IsWellFormed = record {
    initialized = w.initialized;
    aligned = w.aligned;
    memory = memory-IsValid p.pmm written.pmm.memory w.memory;
    first_taken = w.first_taken;
    directory_taken = w.directory_taken;
    tables = λ j lj q.
        let t = w.tables j lj (rw (← write-pde j lj) q) in
        record {
          located = rw (write-pde j lj) t.located;
          nonzero = rw (write-pde j lj) t.nonzero;
          apart = rw (write-pde j lj) t.apart;
          taken = rw (write-pde j lj) t.taken;
        };
    distinct = λ j m lj lm d qj qm.
        rw (write-pde j lj, write-pde m lm)
          (w.distinct j m lj lm d (rw (← write-pde j lj) qj) (rw (← write-pde m lm) qm));
  }

  pub write-hit : entry written (page_of (pde p i)) k ≡ e
  write-hit = store-hit p (page_of (pde p i)) k e

-- The entry of the address `v` is written.
module _ (p : Paging) (v e : ℕ) (w : IsWellFormed p) (word : v < 2 ^ 32)
    (here : is_present (pde p (pde_index v)) ≡ true) where
  abbrev pub rewritten : Paging
  rewritten = store (page_of (pde p (pde_index v))) (pte_index v) e p

  pub write-entry_at : entry_at rewritten v ≡ e
  write-entry_at =
      rw
        (
          write-pde p (pde_index v) (pte_index v) e w (omega arith) (omega arith) here (pde_index v)
              (omega arith),
          here,
        )
        (write-hit p (pde_index v) (pte_index v) e w (omega arith) (omega arith) here)

  other_table :
      (u : ℕ)
      → pde_index u ≢ pde_index v
      → is_present (pde p (pde_index u)) ≡ true
      → entry rewritten (page_of (pde p (pde_index u))) (pte_index u)
        ≡ entry p (page_of (pde p (pde_index u))) (pte_index u)
  other_table u d q =
      store-other_table p (page_of (pde p (pde_index v))) (pte_index v) e
        (page_of (pde p (pde_index u))) (pte_index u) (omega arith) (omega arith) (omega arith)
        (omega arith)
        (omega (arith, w.distinct (pde_index u) (pde_index v) (omega arith) (omega arith) d q here))

  same_table :
      (u : ℕ)
      → u < 2 ^ 32
      → u / 4096 ≢ v / 4096
      → pde_index u ≡ pde_index v
      → entry rewritten (page_of (pde p (pde_index v))) (pte_index u)
        ≡ entry p (page_of (pde p (pde_index v))) (pte_index u)
  same_table u wu d q =
      store-other_entry p (page_of (pde p (pde_index v))) (pte_index v) e (pte_index u)
        (omega arith)

  pub write-entry_at_others :
      (u : ℕ) → u < 2 ^ 32 → u / 4096 ≢ v / 4096 → entry_at rewritten u ≡ entry_at p u
  write-entry_at_others u wu d =
      rw
        (write-pde p (pde_index v) (pte_index v) e w (omega arith) (omega arith) here (pde_index u)
          (omega arith))
        (elim (Bool-cases (pde_index u == pde_index v)) [
          | inl q ↦
              let r : pde_index u ≡ pde_index v = ground arith in rw (r, here) (same_table u wu d r)
          | inr q ↦ elim (Bool-cases (is_present (pde p (pde_index u)))) [
            | inl r ↦ rw r (other_table u (ground arith) r)
            | inr r ↦ rw r
          ]
        ])
