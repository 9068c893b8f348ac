-- ===== src/Vma/Examples.antt =====
-- The theorems on `kernel/vma.c` at a space with two areas.
use unidos.Base.{ℕ, ◌≡◌, refl, true, false, ◌==◌, if◌then◌else◌, none, some, List, [], ◌∷◌, arith}
use unidos.Chain.{member, distinct, Runs}
use unidos.Chain.Order.{below, at_least}
use unidos.Vma.{Space, Vma, start_of, end_of, vma_insert}
use unidos.Vma.Areas.{HasAreas, areas_ordered, clear_of}
use unidos.Vma.Insert.{with_area, vma_insert-HasAreas}

-- Areas 1 and 2 are in the list, with a gap between them for area 3.
abbrev area : ℕ → Vma
area v =
    if v == 1
    then record { start = 0x1000; end = 0x2000; type = 1; prot = 1; next = some 2 }
    else if v == 2
    then record { start = 0x4000; end = 0x6000; type = 3; prot = 3; next = none }
    else record { start = 0x2000; end = 0x3000; type = 6; prot = 3; next = none }

abbrev space : Space
space = record { vma_pool = area; vma_pool_count = 4; vma_head = some 1 }

abbrev areas : List ℕ
areas = 1 ∷ 2 ∷ []

space-HasAreas : HasAreas space areas
unfolding Runs distinct member below areas_ordered at_least
space-HasAreas = record {
  linked = (refl, (refl, refl));
  apart = refl;
  inside = refl;
  ordered = refl;
}

three_outside : member 3 areas ≡ false
unfolding member
three_outside = refl

three_clear : clear_of (start_of space) (end_of space) 0x2000 0x3000 areas ≡ true
unfolding clear_of
three_clear = refl

vma_insert-HasAreas_example : HasAreas (vma_insert 3 space) (with_area space 3 areas)
vma_insert-HasAreas_example =
    vma_insert-HasAreas space 3 areas space-HasAreas (omega arith) three_outside (omega arith)
      three_clear
