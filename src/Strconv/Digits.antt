-- ===== src/Strconv/Digits.antt =====
-- Reading back what the number verbs print.
use native.Mathlib.Nat.{
  pow-suc, pow-zero, div-add-mod', div-lt_iff_lt-mul, mod-lt, mul_assoc, le-mul_of_pos_right,
}
use Prim.Native.Nat.{max}
use longclaw.Base.{
  ℕ, zero, suc, ◌+◌, ◌*◌, ◌/◌, ◌%◌, ◌^◌, ◌<◌, ◌≤◌, ◌++◌, [], ◌∷◌, Bytes, ◌≡◌, refl, arith,
  append_assoc, sym, ap, ◌∙◌, length, length-append, append-nil, All, All-append, ◌==◌, false, pos,
}
use longclaw.Strconv.{
  digit_value, digit_char, done, scan, parse_uint, digits, atoi, number, format_padded,
  count_digits,
}

digit_value-digit_char : (d : ℕ) → d < 16 → digit_value (digit_char d) ≡ d
unfolding digit_value digit_char
digit_value-digit_char d h = ground arith

parse_uint-scan : (base : ℕ) (s : Bytes) → 0 < length s → parse_uint base s ≡ scan base s 0
unfolding parse_uint
parse_uint-scan base [] h = absurd (omega arith)
parse_uint-scan base (c ∷ s) h = refl

pub length-digits : (base w n : ℕ) → length (digits base w n) ≡ w
unfolding digits
length-digits base zero n = refl
length-digits base (suc w) n = omega (
  arith,
  length-append {0} (digits base w (n / base)) (digit_char (n % base) ∷ []),
  length-digits base w (n / base),
)

scan_digit :
    (base d a : ℕ) (rest : Bytes)
    → d < base
    → base ≤ 16
    → a * base + d < 2 ^ 64
    → scan base (digit_char d ∷ rest) a ≡ scan base rest (a * base + d)
unfolding scan
scan_digit base d a rest h k fits = ground (arith, digit_value-digit_char d)

-- One digit more, as arithmetic on a value read before it.
one_more : (base w n a : ℕ) → a * base ^ suc w + n ≡ (a * base ^ w + n / base) * base + n % base
one_more base w n a = omega (
  arith,
  ap (λ (t : ℕ). a * t) (pow-suc base w),
  div-add-mod' n base,
  mul_assoc a (base ^ w) base,
)

-- Digits printed in a base up to 16 are read back, behind a value read before them.
pub scan-digits :
    (base w n a : ℕ) (rest : Bytes)
    → 0 < base
    → base ≤ 16
    → n < base ^ w
    → a * base ^ w + n < 2 ^ 64
    → scan base (digits base w n ++ rest) a ≡ scan base rest (a * base ^ w + n)
unfolding digits
scan-digits base zero n a rest p q h fits =
    ap (λ k. scan base rest k) (omega (arith, pow-zero base, ap (λ (t : ℕ). a * t) (pow-zero base)))
scan-digits base (suc w) n a rest p q h fits = rw append_assoc (
    scan-digits base w (n / base) a (digit_char (n % base) ∷ rest) p q
      ((div-lt_iff_lt-mul p).1 (rw pow-suc at h)) (omega (arith, e, le-mul_base))
    ∙ scan_digit base (n % base) m rest (mod-lt n p) q (rw e at fits)
    ∙ ap (λ k. scan base rest k) (sym e))
  where
    m : ℕ
    m = a * base ^ w + n / base

    e : a * base ^ suc w + n ≡ m * base + n % base
    e = one_more base w n a

    le-mul_base : m ≤ m * base
    le-mul_base = le-mul_of_pos_right m p

-- A number of at most 64 bits is read back from its digits.
pub parse_uint-digits :
    (base w n : ℕ)
    → 0 < base
    → base ≤ 16
    → 0 < w
    → n < base ^ w
    → n < 2 ^ 64
    → parse_uint base (digits base w n) ≡ done n
parse_uint-digits base w n p q pos_w h fits =
    parse_uint-scan base (digits base w n) (omega (arith, length-digits base w n))
    ∙ ap (λ s. scan base s 0) (sym (append-nil _))
    ∙ scan-digits base w n 0 [] p q h (omega arith)
    ∙ unfold scan in ap done (omega arith)

-- The digits of base ten are the bytes '0' to '9'.
abbrev pub IsDigit : ℕ → Type 0
IsDigit c = (b'0' ≤ c) × (c ≤ b'9')

pub digits-IsDigit : (w n : ℕ) → All IsDigit (digits 10 w n)
unfolding digits
digits-IsDigit zero n = tt
digits-IsDigit (suc w) n =
    All-append IsDigit (digits 10 w (n / 10)) (digit_char (n % 10) ∷ []) (digits-IsDigit w (n / 10))
      (last, tt)
  where
    last : IsDigit (digit_char (n % 10))
    last = unfold digit_char in ground arith

count_digits-le : (fuel w n : ℕ) → 0 < w → n < 10 ^ w → count_digits fuel n ≤ w
unfolding count_digits
count_digits-le zero w n p h = omega arith
count_digits-le (suc fuel) zero n p h = absurd (omega arith)
count_digits-le (suc fuel) (suc zero) n p h = ground arith
count_digits-le (suc fuel) (suc (suc w)) n p h =
    ground (arith, count_digits-le fuel (suc w) (n / 10), pow-suc 10 (suc w))

-- A number that fits is padded to the width.
pub format_padded_fits : (w n : ℕ) → 0 < w → n < 10 ^ w → format_padded w n ≡ digits 10 w n
unfolding format_padded
format_padded_fits w n p h =
    let e : max w (count_digits 20 n) ≡ w = omega (arith, count_digits-le 20 w n p h) in
    ap (λ k. digits 10 k n) e

atoi-IsDigit :
    (s : Bytes) (n : ℕ)
    → All IsDigit s
    → parse_uint 10 s ≡ done n
    → n < 2 ^ 63
    → atoi s ≡ number (pos n)
atoi-IsDigit [] n d e h = unfold parse_uint in cc
atoi-IsDigit (c ∷ s) n (d, _) e h =
    unfold atoi in
    rw (not_sign c b'-' (omega arith), not_sign c b'+' (omega arith), e) (ground arith)
  where
    not_sign : (a b : ℕ) → (a ≡ b → ⊥) → (a == b) ≡ false
    not_sign a b ne = ground arith

-- A padded number is read back by `Atoi`.
pub atoi-format_padded :
    (w n : ℕ) → 0 < w → n < 10 ^ w → n < 2 ^ 63 → atoi (format_padded w n) ≡ number (pos n)
atoi-format_padded w n p h fits = rw (format_padded_fits w n p h) (
    atoi-IsDigit _ n (digits-IsDigit w n)
      (parse_uint-digits 10 w n (omega arith) (omega arith) p h (omega arith)) fits)
