-- ===== src/Vma.antt =====
-- The list of memory areas of an address space, in `kernel/vma.c`.
mod Areas
mod Insert
mod Find
mod Examples
use unidos.Base.{
  ℕ, zero, suc, Bool, true, false, not, ◌&&◌, ◌==◌, leb, ltb, if◌then◌else◌, Option, none, some,
}
use unidos.Chain.{Links, link, advance, insert_after, cut_from}

-- An area `[start, end)`; its kind and protection are numbers.
pub record Vma : Type 0 where
  pub start : ℕ
  pub end : ℕ
  pub type : ℕ
  pub prot : ℕ
  pub next : Option ℕ

-- The pool of areas, named by their slots, and the head of the list of one address space.
pub record Space : Type 0 where
  pub vma_pool : ℕ → Vma
  pub vma_pool_count : ℕ
  pub vma_head : Option ℕ

abbrev pub start_of : Space → ℕ → ℕ
start_of m v = (m.vma_pool v).start

abbrev pub end_of : Space → ℕ → ℕ
end_of m v = (m.vma_pool v).end

abbrev pub links_of : Space → Links
links_of m v = (m.vma_pool v).next

abbrev pub set_links : Links → Space → Space
set_links links m = record m { vma_pool = λ v. record (m.vma_pool v) { next = links v } }

-- Neither pointer is `NULL`. The list is walked with as many rounds as the pool has slots.
unfoldable pub vma_insert : ℕ → Space → Space
vma_insert v m =
    let in_front = record (set_links (link v m.vma_head (links_of m)) m) { vma_head = some v } in
    elim m.vma_head [
      | none ↦ in_front
      | some h ↦
          if ltb (start_of m v) (start_of m h)
          then in_front
          else let it =
              advance m.vma_pool_count (links_of m) (λ n. ltb (start_of m n) (start_of m v)) h in
            set_links (insert_after it v (links_of m)) m
    ]

-- The link of the removed area itself stays as it is.
unfoldable pub vma_remove : ℕ → Space → Space
vma_remove v m = elim m.vma_head [
  | none ↦ m
  | some h ↦
      if h == v
      then record m { vma_head = links_of m v }
      else set_links (cut_from m.vma_pool_count h v (links_of m)) m
]

abbrev pub contains : Space → ℕ → ℕ → Bool
contains m vaddr v = leb (start_of m v) vaddr && ltb vaddr (end_of m v)

unfoldable pub find_loop : ℕ → Space → ℕ → Option ℕ → Option ℕ
find_loop zero m vaddr current = none
find_loop (suc fuel) m vaddr current = elim current [
  | none ↦ none
  | some v ↦
      let rest = find_loop fuel m vaddr (links_of m v) in
      if contains m vaddr v then some v else rest
]

unfoldable pub vma_find : Space → ℕ → Option ℕ
vma_find m vaddr = find_loop m.vma_pool_count m vaddr m.vma_head
