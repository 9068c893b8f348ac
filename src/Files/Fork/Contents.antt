-- ===== src/Files/Fork/Contents.antt =====
-- What a list of descriptors holds, for the copy of `kernel/io/fdman.c`.
use unidos.Base.{ℕ, ◌≤◌, ◌<◌, ◌≡◌, refl, ap, arith, true, Option, List, [], ◌∷◌, ◌++◌, length}
use unidos.Chain.{member}
use unidos.Chain.Order.{below, length-below}
use unidos.Files.{Files}
use unidos.Files.Table.{IsTable, of_entry, refs}

-- What the entries of a list hold: the open file and the number that the process knows.
unfoldable pub contents : {M : Type 0} → Files M → List ℕ → List (Option ℕ × ℕ)
contents f [] = []
contents f (d ∷ ds) = (of_entry f d, (f.fds d).local_id) ∷ contents f ds

members-below : (n : ℕ) (ds : List ℕ) → ((i : ℕ) → member i ds ≡ true → i < n) → below n ds ≡ true
unfolding below member
members-below n [] h = refl
members-below n (d ∷ ds) h = ground (arith, h d, members-below n ds (λ i m. h i (ground arith)))

module _ {M : Type 0} where
  pub refs-contents :
      (f g : Files M) (o : ℕ) (cs ds : List ℕ)
      → contents g cs ≡ contents f ds
      → refs g o cs ≡ refs f o ds
  unfolding refs contents
  refs-contents f g o [] [] e = refl
  refs-contents f g o [] (d ∷ ds) e = absurd cc
  refs-contents f g o (c ∷ cs) [] e = absurd cc
  refs-contents f g o (c ∷ cs) (d ∷ ds) e =
      let here : of_entry g c ≡ of_entry f d = cc in
      let rest : contents g cs ≡ contents f ds = cc in
      ground (arith, here, refs-contents f g o cs ds rest)

  pub refs-length : (f : Files M) (o : ℕ) (ds : List ℕ) → refs f o ds ≤ length ds
  unfolding refs
  refs-length f o [] = omega arith
  refs-length f o (d ∷ ds) = ground (arith, refs-length f o ds)

  pub contents-append :
      (f : Files M) (d : ℕ) (ds : List ℕ)
      → contents f (ds ++ d ∷ []) ≡ contents f ds ++ (of_entry f d, (f.fds d).local_id) ∷ []
  unfolding contents
  contents-append f d [] = refl
  contents-append f d (e ∷ ds) =
      ap (λ r. (of_entry f e, (f.fds e).local_id) ∷ r) (contents-append f d ds)

  pub contents-agree :
      (f g : Files M) (ds : List ℕ)
      → ((i : ℕ) → member i ds ≡ true → of_entry g i ≡ of_entry f i)
      → ((i : ℕ) → member i ds ≡ true → (g.fds i).local_id ≡ (f.fds i).local_id)
      → contents g ds ≡ contents f ds
  unfolding contents member
  contents-agree f g [] so sl = refl
  contents-agree f g (d ∷ ds) so sl =
      let one : of_entry g d ≡ of_entry f d = so d (ground arith) in
      let two : (g.fds d).local_id ≡ (f.fds d).local_id = sl d (ground arith) in
      let rest = contents-agree f g ds (λ i m. so i (ground arith)) (λ i m. sl i (ground arith)) in
      cc

  pub table-length : (f : Files M) (a : Option ℕ) (ds : List ℕ) → IsTable f a ds → length ds ≤ 32768
  table-length f a ds t =
      length-below 32768 ds t.separate (members-below 32768 ds (λ i m. (t.own i m).1))
