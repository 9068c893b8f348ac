-- ===== src/Files/Fork/Step.antt =====
-- One round of the loop of `fde_fork_copy` in `kernel/io/fdman.c`.
use unidos.Base.{
  ℕ, ◌+◌, ◌^◌, ◌<◌, ◌≡◌, refl, sym, ◌∙◌, ap, arith, true, false, ◌==◌, if◌then◌else◌, Option, none,
  some, Bool-cases, inl, inr, List, [], ◌∷◌, ◌++◌,
}
use unidos.Chain.{Links, Runs, member, distinct, points, member-differs}
use unidos.Chain.Append.{last, last-some, last-member, extend-Runs}
use unidos.Files.{Files, FdEntry, OpenFile, set_entry, open_file_get}
use unidos.Files.Pools.{Allocs}
use unidos.Files.Table.{count_of, of_entry}
use unidos.Files.Fork.{append_copy, fill_copy, head_or}

pub tail_out :
    (tail : Option ℕ) (c : ℕ) (cs : List ℕ)
    → tail ≡ last cs
    → member c cs ≡ false
    → points tail c ≡ false
tail_out none c cs e out = refl
tail_out (some t) c cs e out = ground (arith, member-differs c t cs out (last-member t cs (sym e)))

-- The links after a round.
pub grown-Runs :
    (next next' : Links) (c : ℕ) (head tail : Option ℕ) (cs : List ℕ)
    → tail ≡ last cs
    → distinct cs ≡ true
    → ((i : ℕ) → member i cs ≡ true → next' i ≡ (if points tail i then some c else next i))
    → next' c ≡ none
    → Runs next head cs none
    → Runs next' (head_or head c) (cs ++ c ∷ []) none
unfolding Runs
grown-Runs next next' c head tail [] l u same end r = rw r (refl, end)
grown-Runs next next' c head none (d ∷ ds) l u same end r = absurd (last-some d ds (sym l))
grown-Runs next next' c head (some t) (d ∷ ds) l u same end r =
    let from : next' t ≡ some c = same t (last-member t (d ∷ ds) (sym l)) ∙ ground arith in
    let all : Runs next' head (d ∷ ds ++ c ∷ []) none =
      extend-Runs next next' t c from end head (d ∷ ds) (sym l) u (λ i m q. same i m ∙ ground arith)
        r in
    rw r.0 (rw r.0 at all)

module _ {M : Type 0} where
  -- What a round leaves alone once the slot is taken.
  pub record Keeps (f g : Files M) : Type 0 where
    pub fd_bits : g.fd_bitmap ≡ f.fd_bitmap
    pub file_bits : g.openfile_bitmap ≡ f.openfile_bitmap
    pub ftargets : g.ftargets ≡ f.ftargets
    pub targets : (o : ℕ) → (g.openfiles o).target ≡ (f.openfiles o).target

  get-Keeps : (o : Option ℕ) (f : Files M) → Keeps f (open_file_get o f)
  unfolding open_file_get
  get-Keeps none f = record {
    fd_bits = refl;
    file_bits = refl;
    ftargets = refl;
    targets = λ u. refl;
  }
  get-Keeps (some o) f = record {
    fd_bits = refl;
    file_bits = refl;
    ftargets = refl;
    targets = λ u. ground arith;
  }

  append_copy-Keeps : (t : Option ℕ) (c : ℕ) (f : Files M) → Keeps f (append_copy t c f)
  unfolding append_copy
  append_copy-Keeps none c f = record {
    fd_bits = refl;
    file_bits = refl;
    ftargets = refl;
    targets = λ u. refl;
  }
  append_copy-Keeps (some t) c f = record {
    fd_bits = refl;
    file_bits = refl;
    ftargets = refl;
    targets = λ u. refl;
  }

  get-fds : (o : Option ℕ) (f : Files M) → (open_file_get o f).fds ≡ f.fds
  unfolding open_file_get
  get-fds none f = refl
  get-fds (some o) f = refl

  get-count :
      (o : Option ℕ) (f : Files M) (u : ℕ)
      → count_of f u + 1 < 2 ^ 32
      → count_of (open_file_get o f) u ≡ count_of f u + (if points o u then 1 else 0)
  unfolding open_file_get
  get-count none f u room = omega arith
  get-count (some o) f u room = ground arith

  append_copy-openfiles :
      (t : Option ℕ) (c : ℕ) (f : Files M) → (append_copy t c f).openfiles ≡ f.openfiles
  unfolding append_copy
  append_copy-openfiles none c f = refl
  append_copy-openfiles (some t) c f = refl

  append_copy-fds :
      (t : Option ℕ) (c : ℕ) (f : Files M) (i : ℕ)
      → (append_copy t c f).fds i
        ≡ (if points t i then record (f.fds i) { next = some c } else f.fds i)
  unfolding append_copy
  append_copy-fds none c f i = refl
  append_copy-fds (some t) c f i = elim (Bool-cases (i == t)) [
    | inl q ↦ let e : i ≡ t = ground arith in rw e refl
    | inr q ↦ let r : (t == i) ≡ false = ground arith in rw (q, r) refl
  ]

module _ {M : Type 0} (f g : Files M) (s c : ℕ) (tail : Option ℕ)
    (got : Allocs (of_entry f s) c f g) (other_source : (s == c) ≡ false)
    (other_tail : points tail c ≡ false) where
  abbrev pub after_round : Files M
  after_round = append_copy tail c (fill_copy s c g)

  abbrev pub copy_entry : FdEntry
  copy_entry = record { fd_id = c; of = of_entry f s; next = none; local_id = (f.fds s).local_id }

  abbrev filled : Files M
  filled = set_entry c (record (g.fds c) { of = of_entry g s; local_id = (g.fds s).local_id }) g

  filled-fds : (i : ℕ) → filled.fds i ≡ (if i == c then copy_entry else f.fds i)
  filled-fds i = elim (Bool-cases (i == c)) [
    | inl q ↦
        let src : g.fds s ≡ f.fds s = got.others s other_source in
        rw q (
          rw got.entry (
            ap
              (λ (e : FdEntry). record { fd_id = c; of = e.of; next = none; local_id = e.local_id })
              src))
    | inr q ↦ rw q (got.others i q)
  ]

  filled-of : (filled.fds c).of ≡ of_entry f s
  filled-of = ap (λ e. e.of) (filled-fds c) ∙ ground arith

  fill_copy-get : fill_copy s c g ≡ open_file_get (of_entry f s) filled
  unfolding fill_copy
  fill_copy-get = ap (λ o. open_file_get o filled) filled-of

  round-entry :
      (i : ℕ)
      → (if points tail i then record (filled.fds i) { next = some c } else filled.fds i) ≡ (
          if i == c
          then copy_entry
          else if points tail i
          then record (f.fds i) { next = some c }
          else f.fds i)
  round-entry i = elim (Bool-cases (i == c)) [
    | inl q ↦
        let e : i ≡ c = ground arith in
        let r : points tail i ≡ false = rw e other_tail in rw r (filled-fds i)
    | inr q ↦
        let e : filled.fds i ≡ f.fds i = filled-fds i ∙ rw q refl in
        ap (λ (x : FdEntry). if points tail i then record x { next = some c } else x) e ∙ rw q refl
  ]

  pub round-fds :
      (i : ℕ)
      → after_round.fds i ≡ (
          if i == c
          then copy_entry
          else if points tail i
          then record (f.fds i) { next = some c }
          else f.fds i)
  round-fds i = rw fill_copy-get (
      append_copy-fds tail c (open_file_get (of_entry f s) filled) i
      ∙ rw (get-fds (of_entry f s) filled) (round-entry i))

  pub round-count :
      (o : ℕ)
      → count_of f o + 1 < 2 ^ 32
      → count_of after_round o ≡ count_of f o + (if points (of_entry f s) o then 1 else 0)
  round-count o room =
      let same : count_of filled o ≡ count_of f o =
        ap (λ (r : ℕ → OpenFile). (r o).refcount) got.same_files in
      rw fill_copy-get (
        ap (λ (r : ℕ → OpenFile). (r o).refcount)
          (append_copy-openfiles tail c (open_file_get (of_entry f s) filled))
        ∙ get-count (of_entry f s) filled o (omega (arith, room, same))
        ∙ ap (λ n. n + (if points (of_entry f s) o then 1 else 0)) same)

  pub round-Keeps : Keeps g after_round
  round-Keeps = rw fill_copy-get (
      let one = get-Keeps (of_entry f s) filled in
      let two = append_copy-Keeps tail c (open_file_get (of_entry f s) filled) in
      record {
        fd_bits = two.fd_bits ∙ one.fd_bits;
        file_bits = two.file_bits ∙ one.file_bits;
        ftargets = two.ftargets ∙ one.ftargets;
        targets = λ o. two.targets o ∙ one.targets o;
      })
