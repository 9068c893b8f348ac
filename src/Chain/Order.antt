-- ===== src/Chain/Order.antt =====
-- Lists of nodes: bounded, and in the order of a key.
use unidos.Base.{
  ℕ, zero, suc, ◌≤◌, ◌<◌, ◌≡◌, refl, Bool, true, false, not, ◌&&◌, ◌||◌, ◌==◌, leb, ltb, List, [],
  ◌∷◌, arith, length,
}
use unidos.Chain.{member, distinct, insert_while, remove}

unfoldable pub below : ℕ → List ℕ → Bool
below n [] = true
below n (p ∷ ps) = ltb p n && below n ps

-- Every key is at least `k`.
unfoldable pub at_least : (ℕ → ℕ) → ℕ → List ℕ → Bool
at_least key k [] = true
at_least key k (p ∷ ps) = leb k (key p) && at_least key k ps

unfoldable pub ordered : (ℕ → ℕ) → List ℕ → Bool
ordered key [] = true
ordered key (p ∷ ps) = at_least key (key p) ps && ordered key ps

remove-length : (t : ℕ) (ps : List ℕ) → length ps ≤ suc (length (remove t ps))
unfolding remove
remove-length t [] = omega arith
remove-length t (p ∷ ps) = ground (arith, remove-length t ps)

pub remove-member :
    (t q : ℕ) (ps : List ℕ)
    → distinct ps ≡ true
    → member q (remove t ps) ≡ (member q ps && not (q == t))
unfolding distinct remove member
remove-member t q [] d = ground arith
remove-member t q (p ∷ ps) d = ground (arith, remove-member t q ps)

pub remove-distinct : (t : ℕ) (ps : List ℕ) → distinct ps ≡ true → distinct (remove t ps) ≡ true
unfolding distinct remove
remove-distinct t [] d = refl
remove-distinct t (p ∷ ps) d = ground (arith, remove-distinct t ps, remove-member t p ps)

below-absent :
    (n : ℕ) (ps : List ℕ) → member n ps ≡ false → below (suc n) ps ≡ true → below n ps ≡ true
unfolding below member
below-absent n [] out b = refl
below-absent n (p ∷ ps) out b = ground (arith, below-absent n ps)

below-remove :
    (n : ℕ) (ps : List ℕ)
    → distinct ps ≡ true
    → below (suc n) ps ≡ true
    → below n (remove n ps) ≡ true
unfolding below distinct remove
below-remove n [] d b = refl
below-remove n (p ∷ ps) d b = ground (arith, below-remove n ps, below-absent n ps)

-- A list of different numbers below `n` has at most `n` elements.
pub length-below : (n : ℕ) (ps : List ℕ) → distinct ps ≡ true → below n ps ≡ true → length ps ≤ n
unfolding below
length-below zero [] d b = omega arith
length-below zero (p ∷ ps) d b = ground arith
length-below (suc n) ps d b = omega (
  arith,
  remove-length n ps,
  length-below n (remove n ps) (remove-distinct n ps d) (below-remove n ps d b),
)

pub remove-below : (n t : ℕ) (ps : List ℕ) → below n ps ≡ true → below n (remove t ps) ≡ true
unfolding below remove
remove-below n t [] b = refl
remove-below n t (p ∷ ps) b = ground (arith, remove-below n t ps)

pub remove-at_least :
    (key : ℕ → ℕ) (k t : ℕ) (ps : List ℕ)
    → at_least key k ps ≡ true
    → at_least key k (remove t ps) ≡ true
unfolding at_least remove
remove-at_least key k t [] a = refl
remove-at_least key k t (p ∷ ps) a = ground (arith, remove-at_least key k t ps)

pub remove-ordered :
    (key : ℕ → ℕ) (t : ℕ) (ps : List ℕ) → ordered key ps ≡ true → ordered key (remove t ps) ≡ true
unfolding ordered remove
remove-ordered key t [] o = refl
remove-ordered key t (p ∷ ps) o =
    ground (arith, remove-ordered key t ps, remove-at_least key (key p) t ps)

pub at_least-member :
    (key : ℕ → ℕ) (k q : ℕ) (ps : List ℕ)
    → at_least key k ps ≡ true
    → member q ps ≡ true
    → k ≤ key q
unfolding at_least member
at_least-member key k q [] a here = absurd cc
at_least-member key k q (p ∷ ps) a here = ground (arith, at_least-member key k q ps)

at_least-weaken :
    (key : ℕ → ℕ) (k j : ℕ) (ps : List ℕ)
    → j ≤ k
    → at_least key k ps ≡ true
    → at_least key j ps ≡ true
unfolding at_least
at_least-weaken key k j [] le a = refl
at_least-weaken key k j (p ∷ ps) le a = ground (arith, at_least-weaken key k j ps)

pub at_least-insert_while :
    (key : ℕ → ℕ) (k t : ℕ) (pass : ℕ → Bool) (ps : List ℕ)
    → at_least key k ps ≡ true
    → k ≤ key t
    → at_least key k (insert_while pass t ps) ≡ true
unfolding at_least insert_while
at_least-insert_while key k t pass [] a le = ground arith
at_least-insert_while key k t pass (p ∷ ps) a le =
    ground (arith, at_least-insert_while key k t pass ps)

pub insert_while-member :
    (pass : ℕ → Bool) (t q : ℕ) (ps : List ℕ)
    → member q (insert_while pass t ps) ≡ (q == t || member q ps)
unfolding member insert_while
insert_while-member pass t q [] = ground arith
insert_while-member pass t q (p ∷ ps) = ground (arith, insert_while-member pass t q ps)

pub insert_while-distinct :
    (pass : ℕ → Bool) (t : ℕ) (ps : List ℕ)
    → distinct ps ≡ true
    → member t ps ≡ false
    → distinct (insert_while pass t ps) ≡ true
unfolding member distinct insert_while
insert_while-distinct pass t [] d out = refl
insert_while-distinct pass t (p ∷ ps) d out =
    ground (arith, insert_while-distinct pass t ps, insert_while-member pass t p ps)

pub insert_while-below :
    (n : ℕ) (pass : ℕ → Bool) (t : ℕ) (ps : List ℕ)
    → below n ps ≡ true
    → t < n
    → below n (insert_while pass t ps) ≡ true
unfolding below insert_while
insert_while-below n pass t [] b lt = ground arith
insert_while-below n pass t (p ∷ ps) b lt = ground (arith, insert_while-below n pass t ps)

-- Behind the keys that are not larger, the order is kept.
pub insert_while-ordered :
    (key : ℕ → ℕ) (t : ℕ) (ps : List ℕ)
    → ordered key ps ≡ true
    → ordered key (insert_while (λ n. leb (key n) (key t)) t ps) ≡ true
unfolding ordered insert_while at_least
insert_while-ordered key t [] o = refl
insert_while-ordered key t (p ∷ ps) o = ground (
  arith,
  insert_while-ordered key t ps,
  at_least-weaken key (key p) (key t) ps,
  at_least-insert_while key (key p) t (λ n. leb (key n) (key t)) ps,
)
