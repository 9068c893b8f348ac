-- ===== src/Files/Table.antt =====
-- A list of descriptors, and how many of its entries refer to an open file.
use unidos.Base.{
  ℕ, ◌+◌, ◌<◌, ◌≡◌, refl, ap, arith, true, false, if◌then◌else◌, Option, none, some, List, [], ◌∷◌,
  ◌++◌,
}
use unidos.Bitmap.Bits.{test_bit}
use unidos.Chain.{Links, Runs, member, distinct, points}
use unidos.Files.{Files}

module _ {M : Type 0} where
  abbrev pub fd_links : Files M → Links
  fd_links f i = (f.fds i).next

  abbrev pub of_entry : Files M → ℕ → Option ℕ
  of_entry f i = (f.fds i).of

  abbrev pub count_of : Files M → ℕ → ℕ
  count_of f o = (f.openfiles o).refcount

  -- The entries of the list that refer to the open file `o`.
  unfoldable pub refs : Files M → ℕ → List ℕ → ℕ
  refs f o [] = 0
  refs f o (d ∷ ds) = (if points (of_entry f d) o then 1 else 0) + refs f o ds

  -- The list of entries from the pointer `a`: different allocated slots, each of which knows its
  -- number.
  pub record IsTable (f : Files M) (a : Option ℕ) (ds : List ℕ) : Type 0 where
    pub runs : Runs (fd_links f) a ds none
    pub separate : distinct ds ≡ true
    pub allocated : (i : ℕ) → member i ds ≡ true → test_bit f.fd_bitmap i ≡ true
    pub own : (i : ℕ) → member i ds ≡ true → ((f.fds i).fd_id ≡ i) × (i < 32768)

  -- What the entries of a list say is the same in two states.
  abbrev pub SameEntries : Files M → Files M → List ℕ → Type 0
  SameEntries f g ds = (i : ℕ) → member i ds ≡ true → g.fds i ≡ f.fds i

  pub refs-agree :
      (f g : Files M) (o : ℕ) (ds : List ℕ)
      → ((i : ℕ) → member i ds ≡ true → of_entry g i ≡ of_entry f i)
      → refs g o ds ≡ refs f o ds
  unfolding refs member
  refs-agree f g o [] same = refl
  refs-agree f g o (d ∷ ds) same =
      let here : of_entry g d ≡ of_entry f d = same d (ground arith) in
      ground (arith, here, refs-agree f g o ds (λ i m. same i (ground arith)))

  pub refs-same :
      (f g : Files M) (o : ℕ) (ds : List ℕ) → SameEntries f g ds → refs g o ds ≡ refs f o ds
  refs-same f g o ds same = refs-agree f g o ds (λ i m. ap (λ e. e.of) (same i m))

  pub refs-append :
      (f : Files M) (o : ℕ) (ds es : List ℕ) → refs f o (ds ++ es) ≡ refs f o ds + refs f o es
  unfolding refs
  refs-append f o [] es = omega arith
  refs-append f o (d ∷ ds) es = omega (arith, refs-append f o ds es)

  pub same-Runs :
      (f g : Files M) (a : Option ℕ) (ds : List ℕ)
      → SameEntries f g ds
      → Runs (fd_links f) a ds none
      → Runs (fd_links g) a ds none
  unfolding Runs member
  same-Runs f g a [] same r = r
  same-Runs f g a (d ∷ ds) same (e, r) =
      let here : fd_links g d ≡ fd_links f d = ap (λ e. e.next) (same d (ground arith)) in
      (e, rw here (same-Runs f g (fd_links f d) ds (λ i m. same i (ground arith)) r))

  pub same-IsTable :
      (f g : Files M) (a : Option ℕ) (ds : List ℕ)
      → SameEntries f g ds
      → ((i : ℕ) → member i ds ≡ true → test_bit g.fd_bitmap i ≡ true)
      → IsTable f a ds
      → IsTable g a ds
  same-IsTable f g a ds same bits t = record {
    runs = same-Runs f g a ds same t.runs;
    separate = t.separate;
    allocated = bits;
    own = λ i m. rw (same i m) (t.own i m);
  }

  -- The list behind its first entry.
  pub rest-IsTable :
      (f : Files M) (a : Option ℕ) (d : ℕ) (ds : List ℕ)
      → IsTable f a (d ∷ ds)
      → (a ≡ some d) × (member d ds ≡ false) × IsTable f (f.fds d).next ds
  unfolding Runs member distinct
  rest-IsTable f a d ds t = (
    t.runs.0,
    ground (arith, t.separate),
    record {
      runs = t.runs.1;
      separate = ground (arith, t.separate);
      allocated = λ i m. t.allocated i (ground arith);
      own = λ i m. t.own i (ground arith);
    },
  )
