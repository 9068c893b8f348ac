-- ===== src/Kva/Names.antt =====
-- `_kva_strncpy`, `_kva_strncmp` and the search by name of `kernel/kva.c`.
use unidos.Base.{
  ℕ, zero, suc, ◌+◌, ◌≤◌, ◌<◌, ◌≡◌, refl, ◌∙◌, arith, Bool, true, false, not, ◌&&◌, ◌==◌, some,
  is_some, Bool-cases, inl, inr, update,
}
use unidos.Kva.{Kva, Name, strncpy_from, same_name_from, find_region, name_max}

strncpy_from-below : (n i : ℕ) (d s : Name) (j : ℕ) → j < i → strncpy_from n i d s j ≡ d j
unfolding strncpy_from
strncpy_from-below zero i d s j lt = refl
strncpy_from-below (suc n) i d s j lt = elim (Bool-cases (s i == 0)) [
  | inl c ↦ rw c (ground arith)
  | inr c ↦ rw c (strncpy_from-below n (i + 1) (update d i (s i)) s j (omega arith) ∙ ground arith)
]

strncpy_from-here : (n i : ℕ) (d s : Name) → strncpy_from (suc n) i d s i ≡ s i
unfolding strncpy_from
strncpy_from-here n i d s = elim (Bool-cases (s i == 0)) [
  | inl c ↦ rw c (ground arith)
  | inr c ↦ rw c (strncpy_from-below n (i + 1) (update d i (s i)) s i (omega arith) ∙ ground arith)
]

copied-rest :
    (n i : ℕ) (d s : Name)
    → (s i == 0) ≡ false
    → strncpy_from (suc n) i d s ≡ strncpy_from n (i + 1) (update d i (s i)) s
unfolding strncpy_from
copied-rest n i d s c = rw c refl

-- A copied name compares equal to its source, also where it is cut off.
pub same_name-strncpy : (n i : ℕ) (d s : Name) → same_name_from n i (strncpy_from n i d s) s ≡ true
unfolding same_name_from
same_name-strncpy zero i d s = refl
same_name-strncpy (suc n) i d s =
    let here = strncpy_from-here n i d s in
    elim (Bool-cases (s i == 0)) [
      | inl c ↦ ground (arith, here, c)
      | inr c ↦
          let rest : same_name_from n (i + 1) (strncpy_from (suc n) i d s) s ≡ true =
            rw (copied-rest n i d s c) (same_name-strncpy n (i + 1) (update d i (s i)) s) in
          ground (arith, here, c, rest)
    ]

-- An entry that the search would stop at.
abbrev pub is_hit : Name → Kva → ℕ → Bool
is_hit name k i =
    not ((k.kva_regions i).base == 0) && same_name_from name_max 0 (k.kva_regions i).name name

module _ (name : Name) (k : Kva) where
  pub find_region-none :
      (n i j : ℕ)
      → is_some (find_region n i name k) ≡ false
      → i ≤ j
      → j < i + n
      → is_hit name k j ≡ false
  unfolding find_region
  find_region-none zero i j e le lt = absurd (omega arith)
  find_region-none (suc n) i j e le lt = ground (arith, find_region-none n (i + 1) j)

  pub find_region-only :
      (n i g : ℕ)
      → i ≤ g
      → g < i + n
      → is_hit name k g ≡ true
      → ((j : ℕ) → j < g → is_hit name k j ≡ false)
      → find_region n i name k ≡ some g
  unfolding find_region
  find_region-only zero i g le lt hit miss = absurd (omega arith)
  find_region-only (suc n) i g le lt hit miss =
      ground (arith, miss i, hit, find_region-only n (i + 1) g)
