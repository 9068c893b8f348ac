-- ===== src/Uaccess/Checks.antt =====
-- What the checks of a range mean.
use unidos.Base.{
  ℕ, zero, suc, ◌+◌, ◌-◌, ◌*◌, ◌/◌, ◌^◌, ◌≤◌, ◌<◌, ◌≡◌, ◌≢◌, Bool, true, false, ◌↔◌, arith, u32,
}
use unidos.Paging.{Paging, page_of, kernel_virtual_base}
use unidos.Uaccess.{range_check, page_allows, pages_loop, pages_allow}

module _ (start n : ℕ) (word : start < 2 ^ 32) (size : n < 2 ^ 32) (some_bytes : 0 < n) where
  pub range_check-user : (range_check start n true ≡ true) ↔ (start + n ≤ kernel_virtual_base)
  unfolding range_check
  range_check-user = ground arith

  pub range_check-kernel :
      (range_check start n false ≡ true) ↔ ((kernel_virtual_base ≤ start) × (start + n ≤ 2 ^ 32))
  unfolding range_check
  range_check-kernel = ground arith

module _ (p : Paging) (write : Bool) where
  loop-here :
      (fuel va last : ℕ)
      → pages_loop (suc fuel) p write va last ≡ true
      → page_allows p write va ≡ true
  unfolding pages_loop
  loop-here fuel va last ok = ground arith

  loop-next :
      (fuel va last : ℕ)
      → pages_loop (suc fuel) p write va last ≡ true
      → va ≢ last
      → pages_loop fuel p write (u32 (va + 0x1000)) last ≡ true
  unfolding pages_loop
  loop-next fuel va last ok d = ground arith

  loop-last :
      (fuel va : ℕ) → page_allows p write va ≡ true → pages_loop (suc fuel) p write va va ≡ true
  unfolding pages_loop
  loop-last fuel va ok = ground arith

  loop-more :
      (fuel va last : ℕ)
      → page_allows p write va ≡ true
      → pages_loop fuel p write (u32 (va + 0x1000)) last ≡ true
      → pages_loop (suc fuel) p write va last ≡ true
  unfolding pages_loop
  loop-more fuel va last ok more = ground arith

  zero_offset : (va : ℕ) → va + 0 * 4096 ≡ va
  zero_offset va = omega arith

  -- From the page `va` on, `k` more pages are looked at after it.
  pages_loop-all :
      (k va last : ℕ)
      → last ≡ va + k * 4096
      → last < 2 ^ 32
      → pages_loop (suc k) p write va last ≡ true
      → (j : ℕ) → j ≤ k
      → page_allows p write (va + j * 4096) ≡ true
  pages_loop-all k va last e lt ok zero le = rw (zero_offset va) (loop-here k va last ok)
  pages_loop-all zero va last e lt ok (suc j) le = absurd (omega arith)
  pages_loop-all (suc k) va last e lt ok (suc j) le =
      let d : va ≢ last = omega arith in
      let next : u32 (va + 0x1000) ≡ va + 4096 = omega arith in
      let more = rw next at (loop-next (suc k) va last ok d) in
      let here : va + 4096 + j * 4096 ≡ va + suc j * 4096 = omega arith in
      rw here at (pages_loop-all k (va + 4096) last (omega (arith, e)) lt more j (omega arith))

  pages_loop_complete :
      (k va last : ℕ)
      → last ≡ va + k * 4096
      → last < 2 ^ 32
      → ((j : ℕ) → j ≤ k → page_allows p write (va + j * 4096) ≡ true)
      → pages_loop (suc k) p write va last ≡ true
  pages_loop_complete zero va last e lt all =
      let same : last ≡ va = omega (arith, e) in
      rw same (loop-last zero va (rw (zero_offset va) at (all 0 (omega arith))))
  pages_loop_complete (suc k) va last e lt all =
      let next : u32 (va + 0x1000) ≡ va + 4096 = omega arith in
      loop-more (suc k) va last (rw (zero_offset va) at (all 0 (omega arith))) (
        rw next (
          pages_loop_complete k (va + 4096) last (omega (arith, e)) lt (λ j le.
            let here : va + suc j * 4096 ≡ va + 4096 + j * 4096 = omega arith in
            rw here at (all (suc j) (omega arith)))))

  module _ (start n : ℕ) (some_bytes : 0 < n) (fits : start + n ≤ 2 ^ 32) where
    abbrev last_page : ℕ
    last_page = page_of (u32 (start + u32 (n - 1)))

    abbrev rounds : ℕ
    rounds = (last_page - page_of start) / 4096

    rounds-reach : last_page ≡ page_of start + rounds * 4096
    rounds-reach = omega arith

    one_more : rounds + 1 ≡ suc rounds
    one_more = omega arith

    page_reached :
        (j : ℕ)
        → j ≤ rounds
        → ((a : ℕ) → start ≤ a → a < start + n → page_allows p write (page_of a) ≡ true)
        → page_allows p write (page_of start + j * 4096) ≡ true
    page_reached zero le all =
        let here : page_of start + 0 * 4096 ≡ page_of start = omega arith in
        rw here (all start (omega arith) (omega arith))
    page_reached (suc j) le all =
        let a = page_of start + suc j * 4096 in
        let here : page_of a ≡ a = omega arith in rw here at (all a (omega arith) (omega arith))

    -- The loop looks at the page of every address of the range, and at no other.
    pub pages_allow-all :
        (pages_allow p write start n ≡ true)
        ↔ ((a : ℕ) → start ≤ a → a < start + n → page_allows p write (page_of a) ≡ true)
    unfolding pages_allow
    pages_allow-all = (
      λ ok a above under.
          let here : page_of start + (a / 4096 - start / 4096) * 4096 ≡ page_of a = omega arith in
          rw here at (
            pages_loop-all rounds (page_of start) last_page rounds-reach (omega arith)
              (rw one_more at ok) (a / 4096 - start / 4096) (omega arith)),
      λ all. rw one_more (
          pages_loop_complete rounds (page_of start) last_page rounds-reach (omega arith)
            (λ j le. page_reached j le all)),
    )
