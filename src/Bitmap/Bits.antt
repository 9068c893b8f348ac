-- ===== src/Bitmap/Bits.antt =====
-- The whole bitmap: bit `f` is bit `f & 7` of byte `f >> 3`.
use unidos.Base.{ℕ, ◌/◌, ◌%◌, ◌<◌, ◌≡◌, Bool, true, false, not, arith, ◌==◌, if◌then◌else◌, update}
use unidos.Bitmap.Byte.{
  byte_set, byte_clear, byte_test, byte_test-set, byte_test-clear, byte_set-lt, byte_clear-lt,
  byte_set-eq, byte_clear-eq, byte_test-zero,
}

abbrev pub Bytes : Type 0
Bytes = ℕ → ℕ

-- Every cell holds a byte.
abbrev pub AreBytes : Bytes → Type 0
AreBytes m = (i : ℕ) → m i < 256

unfoldable pub set_bit : Bytes → ℕ → Bytes
set_bit m f = update m (f / 8) (byte_set (m (f / 8)) (f % 8))

unfoldable pub clear_bit : Bytes → ℕ → Bytes
clear_bit m f = update m (f / 8) (byte_clear (m (f / 8)) (f % 8))

unfoldable pub test_bit : Bytes → ℕ → Bool
test_bit m f = byte_test (m (f / 8)) (f % 8)

pub set_bit-AreBytes : (m : Bytes) (f : ℕ) → AreBytes m → AreBytes (set_bit m f)
unfolding set_bit
set_bit-AreBytes m f h i = ground (arith, h i, byte_set-lt (m (f / 8)) (f % 8))

pub clear_bit-AreBytes : (m : Bytes) (f : ℕ) → AreBytes m → AreBytes (clear_bit m f)
unfolding clear_bit
clear_bit-AreBytes m f h i = ground (arith, h i, byte_clear-lt (m (f / 8)) (f % 8))

module _ (m : Bytes) (bytes : AreBytes m) (f : ℕ) where
  pub test_bit-set : (g : ℕ) → test_bit (set_bit m f) g ≡ (if g == f then true else test_bit m g)
  unfolding test_bit set_bit
  test_bit-set g =
      ground (
        arith,
        byte_test-set (m (f / 8)) (f % 8) (g % 8) (bytes (f / 8)) (omega arith) (omega arith),
      )

  pub test_bit-clear :
      (g : ℕ) → test_bit (clear_bit m f) g ≡ (if g == f then false else test_bit m g)
  unfolding test_bit clear_bit
  test_bit-clear g = ground (
    arith,
    byte_test-clear (m (f / 8)) (f % 8) (g % 8) (bytes (f / 8)) (omega arith) (omega arith),
  )

  -- A byte changes by a write exactly when the bit does.
  pub set_bit-changes : (set_bit m f (f / 8) == m (f / 8)) ≡ test_bit m f
  unfolding test_bit set_bit
  set_bit-changes = ground (arith, byte_set-eq (m (f / 8)) (f % 8) (bytes (f / 8)) (omega arith))

  pub clear_bit-changes : (clear_bit m f (f / 8) == m (f / 8)) ≡ not (test_bit m f)
  unfolding test_bit clear_bit
  clear_bit-changes =
      ground (arith, byte_clear-eq (m (f / 8)) (f % 8) (bytes (f / 8)) (omega arith))

-- The short cut of the allocators: a byte that is 0 has no bit set.
pub test_bit-zero_byte : (m : Bytes) (f : ℕ) → m (f / 8) ≡ 0 → test_bit m f ≡ false
unfolding test_bit
test_bit-zero_byte m f e = rw e (byte_test-zero (f % 8) (omega arith))
