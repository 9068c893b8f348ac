-- ===== src/Bitmap/Byte.antt =====
-- One byte of a bitmap: `|= 1u << k`, `&= ~(1u << k)` and `& (1u << k)`.
use unidos.Base.{
  ℕ, ◌^◌, ◌<◌, ◌≡◌, refl, Bool, true, false, not, ◌&&◌, arith, bit_and, bit_or, ◌==◌, if◌then◌else◌,
  all_below, all_below_sound, same, u8, not32,
}

unfoldable pub byte_set : ℕ → ℕ → ℕ
byte_set b k = u8 (bit_or b (2 ^ k))

unfoldable pub byte_clear : ℕ → ℕ → ℕ
byte_clear b k = u8 (bit_and b (not32 (2 ^ k)))

unfoldable pub byte_test : ℕ → ℕ → Bool
byte_test b k = not (bit_and b (2 ^ k) == 0)

-- What is checked of a byte `b` and two bit numbers.
byte_laws : ℕ → ℕ → ℕ → Bool
byte_laws b k j =
    same (byte_test (byte_set b k) j) (if j == k then true else byte_test b j)
    && (same (byte_test (byte_clear b k) j) (if j == k then false else byte_test b j)
        && (same (byte_set b k == b) (byte_test b k)
            && same (byte_clear b k == b) (not (byte_test b k))))

byte_table : all_below 256 (λ b. all_below 8 (λ k. all_below 8 (λ j. byte_laws b k j))) ≡ true
unfolding all_below byte_laws byte_set byte_clear byte_test
byte_table = refl

module _ (b k j : ℕ) (hb : b < 256) (hk : k < 8) (hj : j < 8) where
  byte_laws-true : byte_laws b k j ≡ true
  byte_laws-true =
      all_below_sound 8 _ j (all_below_sound 8 _ k (all_below_sound 256 _ b byte_table hb) hk) hj

  pub byte_test-set : byte_test (byte_set b k) j ≡ (if j == k then true else byte_test b j)
  unfolding byte_laws
  byte_test-set = ground (arith, byte_laws-true)

  pub byte_test-clear : byte_test (byte_clear b k) j ≡ (if j == k then false else byte_test b j)
  unfolding byte_laws
  byte_test-clear = ground (arith, byte_laws-true)

module _ (b k : ℕ) (hb : b < 256) (hk : k < 8) where
  pub byte_set-eq : (byte_set b k == b) ≡ byte_test b k
  unfolding byte_laws
  byte_set-eq = ground (arith, byte_laws-true b k k hb hk hk)

  pub byte_clear-eq : (byte_clear b k == b) ≡ not (byte_test b k)
  unfolding byte_laws
  byte_clear-eq = ground (arith, byte_laws-true b k k hb hk hk)

pub byte_set-lt : (b k : ℕ) → byte_set b k < 256
unfolding byte_set
byte_set-lt b k = omega arith

pub byte_clear-lt : (b k : ℕ) → byte_clear b k < 256
unfolding byte_clear
byte_clear-lt b k = omega arith

zero_table : all_below 8 (λ k. not (byte_test 0 k)) ≡ true
unfolding all_below byte_test
zero_table = refl

pub byte_test-zero : (k : ℕ) → k < 8 → byte_test 0 k ≡ false
byte_test-zero k h = ground (arith, all_below_sound 8 (λ j. not (byte_test 0 j)) k zero_table h)

full_table : all_below 8 (byte_test 255) ≡ true
unfolding all_below byte_test
full_table = refl

pub byte_test-full : (k : ℕ) → k < 8 → byte_test 255 k ≡ true
byte_test-full k h = all_below_sound 8 (byte_test 255) k full_table h
