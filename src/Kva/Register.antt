-- ===== src/Kva/Register.antt =====
-- A region that `kva_register_region` of `kernel/kva.c` has registered is found by its name.
use unidos.Base.{ℕ, ◌^◌, ◌<◌, ◌≡◌, ◌∙◌, ap, arith, true, false, not, ◌&&◌, ◌==◌, some, is_some}
use unidos.Kva.{
  Kva, Region, Name, lazy_init, kva_register_region, kva_region_exists, kva_get_region_base,
  kva_get_region_size, name_max, same_name_from, the_region,
}
use unidos.Kva.Names.{same_name-strncpy, is_hit, find_region-none, find_region-only}
use unidos.Kva.Layout.{IsLayout, Registers, register_region-Registers}

module _ (image_size : ℕ) (name : Name) (size base : ℕ) (k k' : Kva) (l : IsLayout k)
    (word : size < 2 ^ 32)
    (done : kva_register_region image_size name size k ≡ some (base, k')) where
  abbrev n : ℕ
  n = k.kva_region_count

  r : Registers name size base k k'
  r = register_region-Registers image_size name size base k k' l word done

  absent : is_some (the_region name (lazy_init k)) ≡ false
  unfolding kva_region_exists
  absent = r.unique

  others-miss : (j : ℕ) → j < n → is_hit name k' j ≡ false
  others-miss j lt =
      ap (λ (x : Region). not (x.base == 0) && same_name_from name_max 0 x.name name)
        (r.others j (omega arith))
      ∙ find_region-none name (lazy_init k) 18 0 j absent (omega arith) (omega (arith, r.has_slot))

  new-hit : is_hit name k' n ≡ true
  new-hit =
      let nonzero : (base == 0) ≡ false = ground (arith, r.is_base, l.low) in
      ap (λ (x : Region). not (x.base == 0) && same_name_from name_max 0 x.name name) r.new
      ∙ rw nonzero (same_name-strncpy name_max 0 ((lazy_init k).kva_regions n).name name)

  found : the_region name k' ≡ some n
  found =
      find_region-only name k' 18 0 n (omega arith) (omega (arith, r.has_slot)) new-hit others-miss

  -- After `kva_register_region` of a size of 32 bits has registered a region without a panic,
  -- `kva_get_region_base` finds it by its name at the base that was given out, and
  -- `kva_get_region_size` with its size, also where the name is longer than its field.
  pub get_region-register :
      (kva_get_region_base (some name) k' ≡ some base)
      × (kva_get_region_size (some name) k' ≡ some size)
  unfolding kva_get_region_base kva_get_region_size
  get_region-register =
      let b : (k'.kva_regions n).base ≡ base = ap (λ (x : Region). x.base) r.new in
      let z : (k'.kva_regions n).size ≡ size = ap (λ (x : Region). x.size) r.new in
      (ground (arith, found, b), ground (arith, found, z))
