-- ===== src/Bitmap/Count.antt =====
-- The number of clear bits below a bound.
use unidos.Base.{ℕ, zero, suc, ◌+◌, ◌≤◌, ◌<◌, ◌≡◌, refl, true, false, arith, if◌then◌else◌}
use unidos.Bitmap.Bits.{Bytes, AreBytes, set_bit, clear_bit, test_bit, test_bit-set, test_bit-clear}

unfoldable pub count_clear : Bytes → ℕ → ℕ
count_clear m zero = 0
count_clear m (suc n) = count_clear m n + (if test_bit m n then 0 else 1)

pub count_clear-le : (m : Bytes) (n : ℕ) → count_clear m n ≤ n
unfolding count_clear
count_clear-le m zero = omega arith
count_clear-le m (suc n) = ground (arith, count_clear-le m n)

-- A clear bit below the bound is counted.
pub count_clear-pos : (m : Bytes) (n f : ℕ) → f < n → test_bit m f ≡ false → 0 < count_clear m n
unfolding count_clear
count_clear-pos m zero f lt e = elim lt [ ]
count_clear-pos m (suc n) f lt e = ground (arith, count_clear-pos m n f)

pub count_clear-full :
    (m : Bytes) (n : ℕ) → ((g : ℕ) → g < n → test_bit m g ≡ true) → count_clear m n ≡ 0
unfolding count_clear
count_clear-full m zero h = refl
count_clear-full m (suc n) h =
    ground (arith, h n (omega arith), count_clear-full m n (λ g lt. h g (omega arith)))

-- Two bitmaps that agree below the bound have as many clear bits.
pub count_clear-agree :
    (m k : Bytes) (n : ℕ)
    → ((g : ℕ) → g < n → test_bit m g ≡ test_bit k g)
    → count_clear m n ≡ count_clear k n
unfolding count_clear
count_clear-agree m k zero h = refl
count_clear-agree m k (suc n) h =
    ground (arith, h n (omega arith), count_clear-agree m k n (λ g lt. h g (omega arith)))

module _ (m : Bytes) (bytes : AreBytes m) (f : ℕ) where
  count_clear-set_above : (n : ℕ) → n ≤ f → count_clear (set_bit m f) n ≡ count_clear m n
  count_clear-set_above n h =
      count_clear-agree (set_bit m f) m n (λ g lt. ground (arith, test_bit-set m bytes f g))

  count_clear-clear_above : (n : ℕ) → n ≤ f → count_clear (clear_bit m f) n ≡ count_clear m n
  count_clear-clear_above n h =
      count_clear-agree (clear_bit m f) m n (λ g lt. ground (arith, test_bit-clear m bytes f g))

  pub count_clear-set :
      (n : ℕ) → f < n → test_bit m f ≡ false → count_clear (set_bit m f) n + 1 ≡ count_clear m n
  unfolding count_clear
  count_clear-set zero lt e = elim lt [ ]
  count_clear-set (suc n) lt e =
      ground (arith, test_bit-set m bytes f n, count_clear-set n, count_clear-set_above n)

  pub count_clear-clear :
      (n : ℕ) → f < n → test_bit m f ≡ true → count_clear (clear_bit m f) n ≡ count_clear m n + 1
  unfolding count_clear
  count_clear-clear zero lt e = elim lt [ ]
  count_clear-clear (suc n) lt e =
      ground (arith, test_bit-clear m bytes f n, count_clear-clear n, count_clear-clear_above n)

  -- To set a set bit, or to clear a clear one, changes no bit.
  pub count_clear-set_again :
      (n : ℕ) → test_bit m f ≡ true → count_clear (set_bit m f) n ≡ count_clear m n
  count_clear-set_again n e =
      count_clear-agree (set_bit m f) m n (λ g lt. ground (arith, test_bit-set m bytes f g))

  pub count_clear-clear_again :
      (n : ℕ) → test_bit m f ≡ false → count_clear (clear_bit m f) n ≡ count_clear m n
  count_clear-clear_again n e =
      count_clear-agree (clear_bit m f) m n (λ g lt. ground (arith, test_bit-clear m bytes f g))
