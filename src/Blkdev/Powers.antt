-- ===== src/Blkdev/Powers.antt =====
-- Powers of two as `blkdev_prepare_aligned_io` of `kernel/io/blkdev.c` tests and uses them.
use Prim.Native.Nat.{min, digits, bit_and-bitwise}
use native.Mathlib.Nat.{
  div-add-mod', mod-lt, mod-one, add-mul-mod_self_right, mod-eq_of_lt, one-le-pow, two-pow-succ,
}
use unidos.Base.{
  ℕ, zero, suc, ◌+◌, ◌-◌, ◌*◌, ◌/◌, ◌%◌, ◌^◌, ◌≤◌, ◌<◌, ◌≡◌, refl, sym, ap, ◌∙◌, arith, ltb,
  bit_and, ◌==◌, inl, inr, Bool-cases,
}
use unidos.Blkdev.{shift_loop, block_shift}

abbrev both : ℕ → ℕ → ℕ → ℕ
both fuel a b = digits (λ x. 0) min fuel a b

both-zero : (k b : ℕ) → both k 0 b ≡ 0
both-zero zero b = refl
both-zero (suc k) b = refl

both-fuel : (k l a b : ℕ) → a ≤ k → a ≤ l → both k a b ≡ both l a b
both-fuel k l zero b ak al = both-zero k b ∙ sym (both-zero l b)
both-fuel zero l (suc a) b ak al = absurd (omega arith)
both-fuel (suc k) zero (suc a) b ak al = absurd (omega arith)
both-fuel (suc k) (suc l) (suc a) b ak al =
    omega (arith, both-fuel k l (suc a / 2) (b / 2) (omega arith) (omega arith))

-- The digits of `&`, from the lowest.
bit_and-digit : (a b : ℕ) → bit_and a b ≡ bit_and (a / 2) (b / 2) * 2 + min (a % 2) (b % 2)
bit_and-digit zero b = omega (arith, bit_and-bitwise 0 b, bit_and-bitwise 0 (b / 2))
bit_and-digit (suc a) b =
    let half = suc a / 2 in
    omega (
      arith,
      both-fuel a half half (b / 2) (omega arith) (omega arith),
      bit_and-bitwise (suc a) b,
      bit_and-bitwise half (b / 2),
    )

bit_and-same : (n a : ℕ) → a ≤ n → bit_and a a ≡ a
bit_and-same n zero le = bit_and-bitwise 0 0
bit_and-same zero (suc a) le = absurd (omega arith)
bit_and-same (suc n) (suc a) le =
    omega (arith, bit_and-digit (suc a) (suc a), bit_and-same n (suc a / 2) (omega arith))

mod-double : (p a : ℕ) → 0 < p → a % (p * 2) ≡ a / 2 % p * 2 + a % 2
mod-double p a pos =
    let q = a / 2 / p in
    let r = a / 2 % p * 2 + a % 2 in
    let whole : a ≡ r + q * (p * 2) = omega (arith, div-add-mod' (a / 2) p) in
    let small : r < p * 2 = omega (arith, mod-lt (a / 2) pos) in
    ap (λ x. x % (p * 2)) whole ∙ (add-mul-mod_self_right r q (p * 2) ∙ mod-eq_of_lt small)

bit_and-zero : (n a : ℕ) → a ≤ n → bit_and a 0 ≡ 0
bit_and-zero n zero le = bit_and-bitwise 0 0
bit_and-zero zero (suc a) le = absurd (omega arith)
bit_and-zero (suc n) (suc a) le =
    omega (arith, bit_and-digit (suc a) 0, bit_and-zero n (suc a / 2) (omega arith))

-- A mask of `k` ones takes the rest of the division by `2 ^ k`.
pub bit_and-mask : (k a : ℕ) → bit_and a (2 ^ k - 1) ≡ a % 2 ^ k
bit_and-mask zero a = bit_and-zero a a (omega arith) ∙ sym (mod-one a)
bit_and-mask (suc k) a =
    let pos : 0 < 2 ^ k = one-le-pow k 2 (omega arith) in
    let double : 2 ^ suc k ≡ 2 ^ k * 2 = omega (arith, two-pow-succ k) in
    let half : (2 ^ k * 2 - 1) / 2 ≡ 2 ^ k - 1 = omega (arith, pos) in
    omega (
      arith,
      double,
      ap (bit_and a) (ap (λ x. x - 1) double),
      ap (λ x. a % x) double,
      bit_and-digit a (2 ^ k * 2 - 1),
      ap (bit_and (a / 2)) half,
      bit_and-mask k (a / 2),
      mod-double (2 ^ k) a pos,
      pos,
    )

-- A number that shares no digit with its predecessor is 1 or even.
power-even : (n : ℕ) → 1 < n → bit_and n (n - 1) ≡ 0 → n % 2 ≡ 0
power-even n big e = elim (Bool-cases (n % 2 == 0)) [
  | inl c ↦ ground (arith, c)
  | inr c ↦
      let odd : n % 2 ≡ 1 = ground (arith, c) in
      let half : (n - 1) / 2 ≡ n / 2 = omega (arith, odd) in
      absurd (
        omega (
          arith,
          bit_and-digit n (n - 1),
          ap (bit_and (n / 2)) half,
          bit_and-same n (n / 2) (omega arith),
          odd,
        ))
]

power-half : (n : ℕ) → n % 2 ≡ 0 → 1 < n → bit_and n (n - 1) ≡ 0 → bit_and (n / 2) (n / 2 - 1) ≡ 0
power-half n even big e =
    let half : (n - 1) / 2 ≡ n / 2 - 1 = omega (arith, even) in
    omega (arith, bit_and-digit n (n - 1), ap (bit_and (n / 2)) half)

-- The loop ends with the exponent, for a number that shares no digit with its predecessor.
shift_loop-power :
    (fuel bs s : ℕ)
    → 0 < bs
    → bs < 2 ^ fuel
    → bit_and bs (bs - 1) ≡ 0
    → 2 ^ shift_loop fuel bs s ≡ bs * 2 ^ s
unfolding shift_loop
shift_loop-power zero bs s pos small e = absurd (omega arith)
shift_loop-power (suc fuel) bs s pos small e = elim (Bool-cases (ltb 1 bs)) [
  | inl c ↦
      let big : 1 < bs = ground (arith, c) in
      let even = power-even bs big e in
      let double : 2 ^ (s + 1) ≡ 2 ^ s * 2 =
        let next : s + 1 ≡ suc s = omega arith in
        ap (λ x. 2 ^ x) next ∙ omega (arith, two-pow-succ s) in
      let twice : bs / 2 * 2 ≡ bs = omega (arith, even) in
      let halved : bs / 2 * 2 ^ (s + 1) ≡ bs * 2 ^ s =
        omega (arith, ap (λ x. bs / 2 * x) double, ap (λ b. b * 2 ^ s) twice) in
      rw c (
        shift_loop-power fuel (bs / 2) (s + 1) (omega (arith, big)) (omega (arith, small))
          (power-half bs even big e)
        ∙ halved)
  | inr c ↦ let one : bs ≡ 1 = ground (arith, c) in rw c (omega (arith, ap (λ b. b * 2 ^ s) one))
]

-- For a block size of 32 bits that passes the test, `block_shift` is its exponent.
pub block_shift-power :
    (block_size : ℕ)
    → 0 < block_size
    → block_size < 2 ^ 32
    → bit_and block_size (block_size - 1) ≡ 0
    → 2 ^ block_shift block_size ≡ block_size
unfolding block_shift
block_shift-power block_size pos small e =
    omega (arith, shift_loop-power 32 block_size 0 pos small e)
