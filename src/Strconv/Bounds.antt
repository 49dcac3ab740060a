-- ===== src/Strconv/Bounds.antt =====
-- How large a number can be that is read from a text.
use native.Mathlib.Nat.{pow-suc, pow-zero, mul-le-mul_right, one-le-pow}
use longclaw.Base.{ℕ, ◌+◌, ◌*◌, ◌^◌, ◌≤◌, ◌<◌, ◌≡◌, ap, arith, [], ◌∷◌, Bytes, length, pos}
use longclaw.Strconv.{digit_value, Scan, done, scan, parse_uint, number, positive, negative, atoi}

-- A result fits 64 bits.
pub scan-lt_word :
    (base : ℕ) (s : Bytes) (a n : ℕ) → a < 2 ^ 64 → scan base s a ≡ done n → n < 2 ^ 64
unfolding scan
scan-lt_word base [] a n h e = ground arith
scan-lt_word base (c ∷ s) a n h e = ground (arith, scan-lt_word base s (a * base + digit_value c) n)

pub parse_uint-lt_word : (base : ℕ) (s : Bytes) (n : ℕ) → parse_uint base s ≡ done n → n < 2 ^ 64
unfolding parse_uint
parse_uint-lt_word base [] n e = cc
parse_uint-lt_word base (c ∷ s) n e = scan-lt_word base (c ∷ s) 0 n (omega arith) e

-- Each digit of base ten makes a number at most ten times as large.
scan-lt_pow : (s : Bytes) (a n : ℕ) → scan 10 s a ≡ done n → n < (a + 1) * 10 ^ length s
unfolding scan
scan-lt_pow [] a n e = ground (arith, pow-zero 10)
scan-lt_pow (c ∷ s) a n e = omega (
  arith,
  scan-lt_pow s (a * 10 + digit_value c) n (ground arith),
  mul-le-mul_right (10 ^ length s) small,
  ap (λ (t : ℕ). (a + 1) * t) (pow-suc 10 (length s)),
)
  where
    small : a * 10 + digit_value c + 1 ≤ (a + 1) * 10
    small = ground arith

parse_uint-lt_pow : (s : Bytes) (n : ℕ) → parse_uint 10 s ≡ done n → n < 10 ^ length s
unfolding parse_uint
parse_uint-lt_pow [] n e = cc
parse_uint-lt_pow (c ∷ s) n e = omega (arith, scan-lt_pow (c ∷ s) 0 n e)

positive_lem : (r : Scan) (n : ℕ) → positive r ≡ number (pos n) → r ≡ done n
unfolding positive
positive_lem r n e = ground arith

negative_lem : (r : Scan) (n : ℕ) → negative r ≡ number (pos n) → n ≡ 0
unfolding negative
negative_lem r n e = ground arith

-- A natural number read from a text is below the power of ten of its length.
pub atoi-lt_pow : (s : Bytes) (n : ℕ) → atoi s ≡ number (pos n) → n < 10 ^ length s
unfolding atoi
atoi-lt_pow [] n e = cc
atoi-lt_pow (c ∷ s) n e = ground (
  arith,
  parse_uint-lt_pow s n,
  parse_uint-lt_pow (c ∷ s) n,
  negative_lem (parse_uint 10 s) n,
  positive_lem (parse_uint 10 s) n,
  positive_lem (parse_uint 10 (c ∷ s)) n,
  pow-suc 10 (length s),
  one-le-pow (length s) 10 (omega arith),
)
