-- ===== src/Iso/BitSet/Bits.antt =====
-- `&` and `|` with a mask of one bit, as arithmetic.
use Prim.Native.Nat.{bit_and, bit_or, max, digits, bit_and-bitwise, bit_or-bitwise}
use native.Mathlib.Nat.{pow-suc, div-div-eq-div-mul, mul_comm}
use native.Mathlib.Decide.{dec_le}
use longclaw.Base.{ℕ, zero, suc, ◌+◌, ◌-◌, ◌*◌, ◌/◌, ◌%◌, ◌^◌, ◌≤◌, min, ◌≡◌, refl, ap, ◌∙◌, arith}

-- The native operations recur on binary digits with fuel: a round more than enough changes nothing.
module _ (z : ℕ → ℕ) (f : ℕ → ℕ → ℕ) where
  extra_round : (n a b : ℕ) → a ≤ n → digits z f (suc n) a b ≡ digits z f n a b
  extra_round zero zero b h = refl
  extra_round zero (suc a) b h = absurd (omega arith)
  extra_round (suc n) zero b h = refl
  extra_round (suc n) (suc a) b h = omega (arith, extra_round n (suc a / 2) (b / 2) (omega arith))

  drop_rounds : (n k a b : ℕ) → a ≤ k → k ≤ n → digits z f n a b ≡ digits z f k a b
  drop_rounds zero k a b h le = let e : zero ≡ k = omega arith in ap (λ (t : ℕ). digits z f t a b) e
  drop_rounds (suc n) k a b h le = elim (dec_le k n) [
    | yes p ↦ extra_round n a b (omega arith) ∙ drop_rounds n k a b h p
    | no p ↦ let e : suc n ≡ k = omega arith in ap (λ (t : ℕ). digits z f t a b) e
  ]

  lowest :
      (a b : ℕ)
      → digits z f (suc a) (suc a) b
        ≡ digits z f (suc a / 2) (suc a / 2) (b / 2) * 2 + f (suc a % 2) (b % 2)
  lowest a b =
      omega (arith, drop_rounds a (suc a / 2) (suc a / 2) (b / 2) (omega arith) (omega arith))

and_lowest : (a b : ℕ) → bit_and a b ≡ bit_and (a / 2) (b / 2) * 2 + min (a % 2) (b % 2)
and_lowest zero b = omega (arith, bit_and-bitwise 0 b, bit_and-bitwise 0 (b / 2))
and_lowest (suc a) b =
    omega (
      arith,
      bit_and-bitwise (suc a) b,
      bit_and-bitwise (suc a / 2) (b / 2),
      lowest (λ b. 0) min a b,
    )

or_lowest : (a b : ℕ) → bit_or a b ≡ bit_or (a / 2) (b / 2) * 2 + max (a % 2) (b % 2)
or_lowest zero b = omega (arith, bit_or-bitwise 0 b, bit_or-bitwise 0 (b / 2))
or_lowest (suc a) b =
    omega
      (arith, bit_or-bitwise (suc a) b, bit_or-bitwise (suc a / 2) (b / 2), lowest (λ b. b) max a b)

and_nothing : (n a : ℕ) → a ≤ n → bit_and a 0 ≡ 0
and_nothing zero a h = ground (arith, bit_and-bitwise 0 0)
and_nothing (suc n) a h = omega (arith, and_lowest a 0, and_nothing n (a / 2) (omega arith))

or_nothing : (n a : ℕ) → a ≤ n → bit_or a 0 ≡ a
or_nothing zero a h = ground (arith, bit_or-bitwise 0 0)
or_nothing (suc n) a h = omega (arith, or_lowest a 0, or_nothing n (a / 2) (omega arith))

half_pow : (a k : ℕ) → a / 2 / 2 ^ k ≡ a / 2 ^ suc k
half_pow a k = rw (div-div-eq-div-mul, pow-suc, mul_comm 2)

pub bit_and_one_bit : (k a : ℕ) → bit_and a (2 ^ k) ≡ (a / 2 ^ k % 2) * 2 ^ k
bit_and_one_bit zero a = omega (arith, and_lowest a 1, and_nothing (a / 2) (a / 2) (omega arith))
bit_and_one_bit (suc k) a = omega (
  arith,
  and_lowest a (2 ^ suc k),
  ap (λ (t : ℕ). bit_and (a / 2) t) half,
  bit_and_one_bit k (a / 2),
  ap (λ (t : ℕ). (t % 2) * 2 ^ k) (half_pow a k),
  ap (λ (t : ℕ). (a / 2 ^ suc k % 2) * t) (pow-suc 2 k),
  pow-suc 2 k,
)
  where
    half : 2 ^ suc k / 2 ≡ 2 ^ k
    half = omega (arith, pow-suc 2 k)

pub bit_or_one_bit : (k a : ℕ) → bit_or a (2 ^ k) ≡ a + (1 - a / 2 ^ k % 2) * 2 ^ k
bit_or_one_bit zero a = omega (arith, or_lowest a 1, or_nothing (a / 2) (a / 2) (omega arith))
bit_or_one_bit (suc k) a = omega (
  arith,
  or_lowest a (2 ^ suc k),
  ap (λ (t : ℕ). bit_or (a / 2) t) half,
  bit_or_one_bit k (a / 2),
  ap (λ (t : ℕ). (1 - t % 2) * 2 ^ k) (half_pow a k),
  ap (λ (t : ℕ). (1 - a / 2 ^ suc k % 2) * t) (pow-suc 2 k),
  pow-suc 2 k,
)
  where
    half : 2 ^ suc k / 2 ≡ 2 ^ k
    half = omega (arith, pow-suc 2 k)
