-- ===== src/Files/Fork/Adds.antt =====
-- The entries that `fde_fork_copy` of `kernel/io/fdman.c` has added so far.
use unidos.Base.{
  ℕ, ◌+◌, ◌^◌, ◌<◌, ◌≡◌, refl, sym, ◌∙◌, ap, arith, true, false, ◌||◌, ◌==◌, if◌then◌else◌, Option,
  none, some, Bool-cases, inl, inr, List, [], ◌∷◌, ◌++◌,
}
use unidos.Bitmap.Bits.{AreBytes, test_bit}
use unidos.Chain.{Runs, member, points, member-differs}
use unidos.Files.{Files, FdEntry, OpenFile}
use unidos.Files.Pools.{Allocs}
use unidos.Files.Table.{IsTable, count_of, of_entry, fd_links, refs, refs-agree, refs-append}
use unidos.Files.Fork.{append_copy, fill_copy, head_or}
use unidos.Chain.Append
use unidos.Files.Fork.Step
use unidos.Files.Fork.Contents.{contents, contents-append, contents-agree}

module _ {M : Type 0} where
  -- The entries `cs` from `head` to `tail` have been added to the state `f`: in slots that were free,
  -- and with a reference to their open file each.
  pub record Adds (f : Files M) (head tail : Option ℕ) (cs : List ℕ) (g : Files M) : Type 0 where
    pub table : IsTable g head cs
    pub ends : tail ≡ Append.last cs
    pub new : (i : ℕ) → member i cs ≡ true → test_bit f.fd_bitmap i ≡ false
    pub bits : (i : ℕ) → test_bit g.fd_bitmap i ≡ (test_bit f.fd_bitmap i || member i cs)
    pub bytes : AreBytes g.fd_bitmap
    pub kept : (i : ℕ) → test_bit f.fd_bitmap i ≡ true → g.fds i ≡ f.fds i
    pub counts : (o : ℕ) → count_of g o ≡ count_of f o + refs g o cs
    pub targets : (o : ℕ) → (g.openfiles o).target ≡ (f.openfiles o).target
    pub same_file_bits : g.openfile_bitmap ≡ f.openfile_bitmap
    pub same_ftargets : g.ftargets ≡ f.ftargets

  module _ (f0 f g : Files M) (head tail : Option ℕ) (cs : List ℕ) (s c : ℕ)
      (so_far : Adds f0 head tail cs f) (source : test_bit f0.fd_bitmap s ≡ true)
      (got : Allocs (of_entry f s) c f g) (room : (o : ℕ) → count_of f o + 1 < 2 ^ 32) where
    c_out : member c cs ≡ false
    c_out = ground (arith, got.marks.was_free, so_far.bits c)

    s_other : (s == c) ≡ false
    s_other = ground (arith, got.marks.was_free, so_far.bits c, source)

    tail_other : points tail c ≡ false
    tail_other = Step.tail_out tail c cs so_far.ends c_out

    abbrev pub h : Files M
    h = append_copy tail c (fill_copy s c g)

    abbrev copied : FdEntry
    copied = Step.copy_entry f g s c tail got s_other tail_other

    h-fds :
        (i : ℕ)
        → h.fds i ≡ (
            if i == c
            then copied
            else if points tail i
            then record (f.fds i) { next = some c }
            else f.fds i)
    h-fds = Step.round-fds f g s c tail got s_other tail_other

    h-copy : h.fds c ≡ copied
    h-copy = h-fds c ∙ ground arith

    cs_other : (i : ℕ) → member i cs ≡ true → (i == c) ≡ false
    cs_other i m = ground (arith, member-differs c i cs c_out m)

    h-member :
        (i : ℕ)
        → member i cs ≡ true
        → h.fds i ≡ (if points tail i then record (f.fds i) { next = some c } else f.fds i)
    h-member i m = h-fds i ∙ rw (cs_other i m) refl

    h-of : (i : ℕ) → member i cs ≡ true → of_entry h i ≡ of_entry f i
    h-of i m =
        ap (λ e. e.of) (h-member i m)
        ∙ elim (Bool-cases (points tail i)) [ inl q ↦ rw q refl | inr q ↦ rw q refl ]

    h-local : (i : ℕ) → member i cs ≡ true → (h.fds i).local_id ≡ (f.fds i).local_id
    h-local i m =
        ap (λ e. e.local_id) (h-member i m)
        ∙ elim (Bool-cases (points tail i)) [ inl q ↦ rw q refl | inr q ↦ rw q refl ]

    h-id : (i : ℕ) → member i cs ≡ true → (h.fds i).fd_id ≡ (f.fds i).fd_id
    h-id i m =
        ap (λ e. e.fd_id) (h-member i m)
        ∙ elim (Bool-cases (points tail i)) [ inl q ↦ rw q refl | inr q ↦ rw q refl ]

    h-next :
        (i : ℕ)
        → member i cs ≡ true
        → fd_links h i ≡ (if points tail i then some c else fd_links f i)
    h-next i m =
        ap (λ e. e.next) (h-member i m)
        ∙ elim (Bool-cases (points tail i)) [ inl q ↦ rw q refl | inr q ↦ rw q refl ]

    h-Runs : Runs (fd_links h) (head_or head c) (cs ++ c ∷ []) none
    h-Runs =
        Step.grown-Runs (fd_links f) (fd_links h) c head tail cs so_far.ends so_far.table.separate
          h-next (ap (λ e. e.next) h-copy) so_far.table.runs

    keeps : Step.Keeps g h
    keeps = Step.round-Keeps f g s c tail got s_other tail_other

    h-bits : (i : ℕ) → test_bit h.fd_bitmap i ≡ (test_bit f0.fd_bitmap i || member i (cs ++ c ∷ []))
    h-bits i =
        ap (λ b. test_bit b i) keeps.fd_bits
        ∙ ground (arith, got.marks.marked i, so_far.bits i, Append.append-member i c cs)

    h-own : (i : ℕ) → member i (cs ++ c ∷ []) ≡ true → ((h.fds i).fd_id ≡ i) × (i < 32768)
    h-own i m = elim (Bool-cases (i == c)) [
      | inl q ↦ let e : i ≡ c = ground arith in rw e (ap (λ x. x.fd_id) h-copy, got.marks.in_pool)
      | inr q ↦
          let old : member i cs ≡ true = ground (arith, Append.append-member i c cs) in
          let (id, lt) = so_far.table.own i old in (h-id i old ∙ id, lt)
    ]

    h-count : (o : ℕ) → count_of h o ≡ count_of f0 o + refs h o (cs ++ c ∷ [])
    unfolding refs
    h-count o =
        let one : of_entry h c ≡ of_entry f s = ap (λ e. e.of) h-copy in
        let all = refs-append h o cs (c ∷ []) in
        let old = refs-agree f h o cs h-of in
        Step.round-count f g s c tail got s_other tail_other o (room o)
        ∙ ground (arith, so_far.counts o, all, old, one)

    h-kept : (i : ℕ) → test_bit f0.fd_bitmap i ≡ true → h.fds i ≡ f0.fds i
    h-kept i b =
        let not_c : (i == c) ≡ false = ground (arith, got.marks.was_free, so_far.bits c, b) in
        let not_tail : points tail i ≡ false =
          Step.tail_out tail i cs so_far.ends (ground (arith, so_far.new i, b)) in
        h-fds i ∙ rw not_c (rw not_tail (so_far.kept i b))

    pub round-Adds : Adds f0 (head_or head c) (some c) (cs ++ c ∷ []) h
    round-Adds = record {
      table = record {
        runs = h-Runs;
        separate = Append.append-distinct c cs c_out so_far.table.separate;
        allocated = λ i m. h-bits i ∙ ground (arith, m);
        own = h-own;
      };
      ends = sym (Append.last-append c cs);
      new = λ i m.
          ground (
            arith,
            Append.append-member i c cs,
            m,
            so_far.new i,
            got.marks.was_free,
            so_far.bits c,
          );
      bits = h-bits;
      bytes = rw keeps.fd_bits got.marks.bytes;
      kept = h-kept;
      counts = h-count;
      targets = λ o.
          keeps.targets o
          ∙ ap (λ (r : ℕ → OpenFile). (r o).target) got.same_files
          ∙ so_far.targets o;
      same_file_bits = keeps.file_bits ∙ got.same_file_bits ∙ so_far.same_file_bits;
      same_ftargets = keeps.ftargets ∙ got.same_targets ∙ so_far.same_ftargets;
    }

    pub round-contents :
        contents h (cs ++ c ∷ []) ≡ contents f cs ++ (of_entry f s, (f.fds s).local_id) ∷ []
    round-contents =
        let one : of_entry h c ≡ of_entry f s = ap (λ e. e.of) h-copy in
        let two : (h.fds c).local_id ≡ (f.fds s).local_id = ap (λ e. e.local_id) h-copy in
        let old = contents-agree f h cs h-of h-local in contents-append h c cs ∙ cc
