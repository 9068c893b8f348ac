-- ===== src/Pmm/Alloc/Block.antt =====
-- `pmm_get_next_available_block` and `pmm_alloc_frame`: which frame they grant, and when none.
use unidos.Base.{
  ℕ, zero, suc, ◌+◌, ◌*◌, ◌%◌, ◌<◌, ◌≡◌, refl, Bool, true, false, not, arith, ◌==◌, if◌then◌else◌,
  inl, inr, ◌⊎◌, Option, none, some, Option-cases, sym, ap, ◌∙◌,
}
use unidos.Bitmap.Bits.{test_bit, test_bit-set, test_bit-zero_byte}
use unidos.Bitmap.Count.{count_clear-set, count_clear-full}
use unidos.Circular.{
  next_index, find_from, find_from-passes, find_from-lt, find_from-first, find_from-covers,
  round_of,
}
use unidos.Pmm.State.{Pmm, alloc_success, alloc_oom, bm_set, frame_address, frame_reserved}
use unidos.Pmm.State.Invariant.{IsValid, bm_set-IsValid, hint-IsValid}
use unidos.Pmm.Alloc.{
  Allocated, take_frame, take_block, next_block_loop, alloc_frame_loop, pmm_alloc_frame,
  pmm_get_next_available_block,
}

abbrev pub is_free : Pmm → ℕ → Bool
is_free s f = not (test_bit s.pagebitmap f)

-- The first free frame in circular order from the hint.
unfoldable pub first_free : Pmm → Option ℕ
first_free s = find_from (is_free s) s.frame_count s.frame_count s.frame_hint

-- Frame `f`, free until then, is taken from `s`, and no other changes.
pub record Grants (f : ℕ) (s s' : Pmm) : Type 0 where
  pub in_bounds : f < s.frame_count
  pub was_free : test_bit s.pagebitmap f ≡ false
  pub unreserved : frame_reserved s (frame_address f) ≡ false
  pub taken :
      (g : ℕ) → test_bit s'.pagebitmap g ≡ (if g == f then true else test_bit s.pagebitmap g)
  pub fewer : s'.available_frames + 1 ≡ s.available_frames
  pub regions : s'.mem_regions ≡ s.mem_regions
  pub frames : s'.frame_count ≡ s.frame_count
  pub memory : s'.memory ≡ s.memory
  pub valid : IsValid s'

abbrev pub by_search : (ℕ → Allocated) → Pmm → Option ℕ → Allocated
by_search take s none = (alloc_oom, 0, s)
by_search take s (some f) = take f

next_block_loop-search :
    (s : Pmm) (k f : ℕ)
    → next_block_loop s k f ≡ by_search (take_block s) s (find_from (is_free s) s.frame_count k f)
unfolding next_block_loop find_from
next_block_loop-search s zero f = refl
next_block_loop-search s (suc k) f = ground (
  arith,
  test_bit-zero_byte s.pagebitmap f,
  next_block_loop-search s k (next_index s.frame_count f),
)

alloc_frame_loop-search :
    (s : Pmm) (k f : ℕ)
    → alloc_frame_loop s k f ≡ by_search (take_frame s) s (find_from (is_free s) s.frame_count k f)
unfolding alloc_frame_loop find_from
alloc_frame_loop-search s zero f = refl
alloc_frame_loop-search s (suc k) f = ground (
  arith,
  test_bit-zero_byte s.pagebitmap f,
  alloc_frame_loop-search s k (next_index s.frame_count f),
)

-- The outcomes that the callers rely on.
abbrev pub MeetsSpec : Pmm → Allocated → Type 0
MeetsSpec s (r, a, s') =
    ((f : ℕ) × (r ≡ alloc_success) × (a ≡ f * 4096) × Grants f s s')
    ⊎ ((r ≡ alloc_oom) × (a ≡ 0) × (s' ≡ s) × (s.available_frames ≡ 0))

module _ (s : Pmm) (v : IsValid s) where
  take_frame-Grants :
      (f : ℕ) → f < s.frame_count → test_bit s.pagebitmap f ≡ false → Grants f s (take_frame s f).2
  unfolding take_frame
  take_frame-Grants f lt e =
      let set_valid = bm_set-IsValid s f v lt in
      let next_lt : (f + 1) % s.frame_count < s.frame_count = omega arith in
      record {
        in_bounds = lt;
        was_free = e;
        unreserved = ground (arith, v.guarded f lt);
        taken = test_bit-set s.pagebitmap v.bytes f;
        fewer = omega (
          arith,
          v.counted,
          set_valid.counted,
          count_clear-set s.pagebitmap v.bytes f s.frame_count lt e,
        );
        regions = refl;
        frames = refl;
        memory = refl;
        valid = hint-IsValid (bm_set f s) ((f + 1) % s.frame_count) set_valid next_lt;
      }

  found-free :
      (f : ℕ) → first_free s ≡ some f → (f < s.frame_count) × (test_bit s.pagebitmap f ≡ false)
  unfolding first_free
  found-free f e = (
    find_from-lt (is_free s) s.frame_count s.frame_count s.frame_hint f v.hint e,
    ground (arith, find_from-passes (is_free s) s.frame_count s.frame_count s.frame_hint f e),
  )

  take_block-take_frame : (f : ℕ) → first_free s ≡ some f → take_block s f ≡ take_frame s f
  unfolding take_block
  take_block-take_frame f e =
      let free = found-free f e in rw (take_frame-Grants f free.0 free.1).unreserved

  pub get_next_available_block-search :
      pmm_get_next_available_block s ≡ by_search (take_block s) s (first_free s)
  unfolding pmm_get_next_available_block first_free
  get_next_available_block-search =
      ground (arith, v.ready, v.hint, next_block_loop-search s s.frame_count s.frame_hint)

  alloc_frame-search : pmm_alloc_frame s ≡ by_search (take_frame s) s (first_free s)
  unfolding pmm_alloc_frame first_free
  alloc_frame-search = ground (arith, v.hint, alloc_frame_loop-search s s.frame_count s.frame_hint)

  -- In a valid state `pmm_get_next_available_block` does what `pmm_alloc_frame` does: its check of
  -- the reserved regions never fires.
  pub alloc_frame-get_next_available_block : pmm_alloc_frame s ≡ pmm_get_next_available_block s
  alloc_frame-get_next_available_block = elim (Option-cases (first_free s)) [
    | inl full ↦ rw (alloc_frame-search, get_next_available_block-search, full)
    | inr (f, e) ↦
        rw (alloc_frame-search, get_next_available_block-search, e)
          (sym (ap (λ r. r) (take_block-take_frame f e)))
  ]

  none_free : first_free s ≡ none → (g : ℕ) → g < s.frame_count → test_bit s.pagebitmap g ≡ true
  unfolding first_free
  none_free e g lt =
      ground (arith, find_from-covers (is_free s) s.frame_count s.frame_hint g v.hint lt e)

  none_available : first_free s ≡ none → s.available_frames ≡ 0
  none_available e = v.counted ∙ count_clear-full s.pagebitmap s.frame_count (none_free e)

  -- What `pmm_get_next_available_block` does in a valid state. Either it grants a frame that was
  -- free and lies in no reserved region, and returns its address; or it reports that memory is
  -- exhausted, there is no free frame, and nothing has changed.
  pub get_next_available_block-MeetsSpec : MeetsSpec s (pmm_get_next_available_block s)
  unfolding take_frame
  get_next_available_block-MeetsSpec = elim (Option-cases (first_free s)) [
    | inl full ↦
        rw (get_next_available_block-search, full) (inr (refl, refl, refl, none_available full))
    | inr (f, e) ↦
        let free = found-free f e in
        rw (get_next_available_block-search, e, take_block-take_frame f e)
          (inl (f, refl, omega (arith, v.small), take_frame-Grants f free.0 free.1))
  ]

  -- The granted frame is the first free one in circular order from the hint: every frame that a
  -- search from the hint meets before it is taken.
  pub get_next_available_block-first :
      (f h : ℕ)
      → f < s.frame_count
      → (pmm_get_next_available_block s).1 ≡ f * 4096
      → h < s.frame_count
      → round_of s.frame_count s.frame_hint h < round_of s.frame_count s.frame_hint f
      → test_bit s.pagebitmap h ≡ true
  unfolding take_frame first_free
  get_next_available_block-first f h lf address lh before = elim (Option-cases (first_free s)) [
    | inl full ↦ none_free full h lh
    | inr (g, e) ↦
        let free = found-free g e in
        let same : frame_address g ≡ f * 4096 =
          rw (get_next_available_block-search, e, take_block-take_frame g e) at address in
        let here : f ≡ g = omega (arith, v.small, free.0, same) in
        ground (
          arith,
          find_from-first (is_free s) s.frame_count s.frame_count s.frame_hint g h v.hint lh,
        )
  ]
