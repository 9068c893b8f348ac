-- ===== src/Chain.antt =====
-- Linked lists through a field that holds the next node, as the scheduler keeps them.
pub mod Insert
pub mod Unlink
pub mod Order
pub mod Append
use unidos.Base.{
  ℕ, zero, suc, ◌≤◌, ◌≡◌, ◌≢◌, refl, sym, ap, ◌∙◌, Bool, true, false, not, ◌&&◌, ◌||◌, ◌==◌,
  if◌then◌else◌, inl, inr, Option, none, some, List, [], ◌∷◌, ◌++◌, arith, Bool-cases, length,
}

-- `p->next` for the node `p`.
abbrev pub Links : Type 0
Links = ℕ → Option ℕ

unfoldable pub link : ℕ → Option ℕ → Links → Links
link p v next q = if q == p then v else next q

unfoldable pub member : ℕ → List ℕ → Bool
member p [] = false
member p (q ∷ qs) = q == p || member p qs

unfoldable pub distinct : List ℕ → Bool
distinct [] = true
distinct (p ∷ ps) = not (member p ps) && distinct ps

-- From `a` the links run through the nodes of the list and then to `b`.
unfoldable pub Runs : Links → Option ℕ → List ℕ → Option ℕ → Type 0
Runs next a [] b = a ≡ b
Runs next a (p ∷ ps) b = (a ≡ some p) × Runs next (next p) ps b

-- `while (it->next && pass(it->next)) it = it->next;` with at most `fuel` rounds.
unfoldable pub advance : ℕ → Links → (ℕ → Bool) → ℕ → ℕ
advance zero next pass it = it
advance (suc fuel) next pass it = elim (next it) [
  | none ↦ it
  | some n ↦ let rest = advance fuel next pass n in if pass n then rest else it
]

pub link-value :
    (p : ℕ) (v : Option ℕ) (next : Links) (q : ℕ) → link p v next q ≡ (if q == p then v else next q)
unfolding link
link-value p v next q = refl

pub link-at : (p : ℕ) (v : Option ℕ) (next : Links) → link p v next p ≡ v
unfolding link
link-at p v next = ground arith

pub link-Runs :
    (next : Links) (p : ℕ) (v a : Option ℕ) (ps : List ℕ) (b : Option ℕ)
    → member p ps ≡ false
    → Runs next a ps b
    → Runs (link p v next) a ps b
unfolding Runs link member
link-Runs next p v a [] b out r = r
link-Runs next p v a (q ∷ qs) b out (e, r) =
    let other : link p v next q ≡ next q = ground arith in
    (e, rw other (link-Runs next p v (next q) qs b (ground arith) r))

-- `t->next = it->next; it->next = t;`
abbrev pub insert_after : ℕ → ℕ → Links → Links
insert_after it t next = link it (some t) (link t (next it) next)

-- `it->next = t->next; t->next = NULL;` if `t` comes after `it`
abbrev pub unlink_after : ℕ → ℕ → Links → Links
unlink_after it t next = link t none (link it (next t) next)

abbrev pub points : Option ℕ → ℕ → Bool
points none t = false
points (some p) t = p == t

-- `while (it->next && it->next != t) it = it->next;` and, if `t` has been found, its removal.
unfoldable pub unlink_from : ℕ → ℕ → ℕ → Links → Links
unfolding advance
unlink_from fuel x t next =
    let it = advance fuel next (λ n. not (n == t)) x in
    if points (next it) t then unlink_after it t next else next

-- `t` behind the first nodes that pass.
unfoldable pub insert_while : (ℕ → Bool) → ℕ → List ℕ → List ℕ
insert_while pass t [] = t ∷ []
insert_while pass t (p ∷ ps) = if pass p then p ∷ insert_while pass t ps else t ∷ p ∷ ps

unfoldable pub remove : ℕ → List ℕ → List ℕ
remove t [] = []
remove t (p ∷ ps) = if p == t then ps else p ∷ remove t ps

pub member-differs : (x y : ℕ) (xs : List ℕ) → member x xs ≡ false → member y xs ≡ true → x ≢ y
unfolding member
member-differs x y [] out here = absurd cc
member-differs x y (z ∷ zs) out here = ground (arith, member-differs x y zs)

-- `while (it->next && it->next != t) it = it->next;` and, if `t` has been found,
-- `it->next = t->next`; the link of `t` stays.
unfoldable pub cut_from : ℕ → ℕ → ℕ → Links → Links
unfolding advance
cut_from fuel x t next =
    let it = advance fuel next (λ n. not (n == t)) x in
    if points (next it) t then link it (next t) next else next
