-- ===== src/Iso/BitSet/Laws.antt =====
-- A flag that is set is read back and leaves the others alone; the hexadecimal form is read back.
use Prim.Native.Nat.{bit_and}
use native.Mathlib.Nat.{
  pow-suc, pow-zero, mul_assoc, add_comm, add-mul-div_right, div-div-eq-div-mul, div-eq_of_lt,
  div-add-mod', mod-lt, one-le-pow,
}
use native.Mathlib.Decide.{dec_le}
use longclaw.Base.{
  Bytes, ℕ, zero, suc, ◌+◌, ◌-◌, ◌*◌, ◌/◌, ◌%◌, ◌^◌, ◌≤◌, ◌<◌, Bool, true, false, ◌==◌,
  if◌then◌else◌, ok, ◌≡◌, ◌≢◌, refl, sym, ap, ◌∙◌, arith, length, ge→ltb, Bool-cases, inl, inr,
  ==_iff,
}
use longclaw.Strconv.Bounds.{parse_uint-lt_word}
use longclaw.Strconv.Digits.{parse_uint-digits, length-digits}
use longclaw.Iso.BitSet.{BitSet, bit, get_bit, assign_bit, set_string, to_hex, IsWord}
use longclaw.Iso.BitSet.Bits.{bit_and_one_bit, bit_or_one_bit}

pub get_bit-bit {ℓ} :
    {E : Type ℓ} (b : BitSet) (i : ℕ) → i ≤ 63 → get_bit {E = E} b i ≡ ok (bit b i)
unfolding get_bit
get_bit-bit b i h = rw (ge→ltb 63 i h)

pub length-to_hex : (b : BitSet) → length (to_hex b) ≡ 16
unfolding to_hex
length-to_hex b = length-digits 16 16 b.word

-- A bitmap's text is read back.
pub set_string-to_hex {ℓ} :
    {E : Type ℓ} (e : E) (b : BitSet) → IsWord b → set_string e (to_hex b) 16 ≡ ok b
unfolding set_string to_hex
set_string-to_hex e b h =
    rw (parse_uint-digits 16 16 b.word (omega arith) (omega arith) (omega arith) h h, set_string)

pow_add : (l d : ℕ) → 2 ^ (l + d) ≡ 2 ^ l * 2 ^ d
pow_add l zero = let e : l + zero ≡ l = omega arith in rw (e, pow-zero 2) (omega arith)
pow_add l (suc d) =
    let e : l + suc d ≡ suc (l + d) = omega arith in
    rw (e, pow-suc, pow-suc, pow_add l d) (mul_assoc _ _ _)

-- A number by its digit of weight 2 ^ k.
abbrev spelled : ℕ → ℕ → ℕ → ℕ → ℕ
spelled k q t s = (q * 2 + t) * 2 ^ k + s

div-spelled : (k q t s : ℕ) → s < 2 ^ k → spelled k q t s / 2 ^ k ≡ q * 2 + t
div-spelled k q t s h =
    ap (λ (m : ℕ). m / 2 ^ k) (add_comm ((q * 2 + t) * 2 ^ k) s)
    ∙ add-mul-div_right s (q * 2 + t) (omega arith)
    ∙ omega (arith, div-eq_of_lt h)

digit-spelled : (k q t s : ℕ) → t < 2 → s < 2 ^ k → spelled k q t s / 2 ^ k % 2 ≡ t
digit-spelled k q t s ht h = omega (arith, div-spelled k q t s h)

-- The digits above weight 2 ^ k do not depend on that digit.
above : (k d q t s : ℕ) → t < 2 → s < 2 ^ k → spelled k q t s / 2 ^ (suc k + d) ≡ q / 2 ^ d
above k d q t s ht h =
    rw
      (
        pow_add (suc k) d,
        ← div-div-eq-div-mul,
        pow-suc,
        ← div-div-eq-div-mul,
        div-spelled k q t s h,
      )
      (ap (λ (m : ℕ). m / 2 ^ d) (omega arith))

-- Nor do those below.
below : (l d q t s : ℕ) → spelled (l + suc d) q t s / 2 ^ l % 2 ≡ s / 2 ^ l % 2
below l d q t s = omega (
  arith,
  ap (λ (m : ℕ). m / 2 ^ l) regroup,
  add-mul-div_right s ((q * 2 + t) * 2 ^ d * 2) (one-le-pow l 2 (omega arith)),
)
  where
    regroup : spelled (l + suc d) q t s ≡ s + (q * 2 + t) * 2 ^ d * 2 * 2 ^ l
    regroup = rw (pow_add l (suc d), pow-suc) (omega arith)

other_digit :
    (k l q t t' s : ℕ)
    → k ≢ l
    → t < 2
    → t' < 2
    → s < 2 ^ k
    → spelled k q t s / 2 ^ l % 2 ≡ spelled k q t' s / 2 ^ l % 2
other_digit k l q t t' s ne ht ht' h = elim (dec_le k l) [
  | yes p ↦
      let e : l ≡ suc k + (l - suc k) = omega arith in
      rw e (
        ap (λ (m : ℕ). m % 2)
          (above k (l - suc k) q t s ht h ∙ sym (above k (l - suc k) q t' s ht' h)))
  | no p ↦
      let e : k ≡ l + suc (k - suc l) = omega arith in
      rw e (below l (k - suc l) q t s ∙ sym (below l (k - suc l) q t' s))
]

record IsFlag (n k : ℕ) : Type 0 where
  high : ℕ
  low : ℕ
  fits : low < 2 ^ k
  spells : n ≡ spelled k high (n / 2 ^ k % 2) low

pick-IsFlag : (n k : ℕ) → IsFlag n k
pick-IsFlag n k = record {
  high = n / 2 ^ k / 2;
  low = n % 2 ^ k;
  fits = mod-lt n (one-le-pow k 2 (omega arith));
  spells = omega (arith, div-add-mod' n (2 ^ k), ap (λ (m : ℕ). m * 2 ^ k) split);
}
  where
    split : n / 2 ^ k / 2 * 2 + n / 2 ^ k % 2 ≡ n / 2 ^ k
    split = omega arith

cleared-spelled : (n k : ℕ) (f : IsFlag n k) → n - bit_and n (2 ^ k) ≡ spelled k f.high 0 f.low
cleared-spelled n k f = omega (arith, bit_and_one_bit k n, f.spells)

-- What `SetBit` leaves in the word: the same digits but for the one.
assign_bit-spelled :
    (b : BitSet) (index : ℕ) (val : Bool) (f : IsFlag b.word (63 - index))
    → (assign_bit b index val).word ≡ spelled (63 - index) f.high (if val then 1 else 0) f.low
unfolding assign_bit
assign_bit-spelled b index true f = rw (cleared-spelled b.word (63 - index) f) (
    omega (
      arith,
      bit_or_one_bit (63 - index) (spelled (63 - index) f.high 0 f.low),
      ap (λ (t : ℕ). (1 - t) * 2 ^ (63 - index))
          (digit-spelled (63 - index) f.high 0 f.low (omega arith) f.fits),
    ))
assign_bit-spelled b index false f = cleared-spelled b.word (63 - index) f

digit_lt : (val : Bool) → (if val then 1 else 0) < 2
digit_lt val = ground arith

-- A flag that is set or cleared is read back, and the other flags stay.
pub bit-assign_bit :
    (b : BitSet) (i j : ℕ) (val : Bool)
    → i ≤ 63
    → j ≤ 63
    → bit (assign_bit b i val) j ≡ (if i == j then val else bit b j)
bit-assign_bit b i j val hi hj = elim (Bool-cases (i == j)) [
  | inl e ↦ rw e (same e)
  | inr ne ↦ rw ne (ap (λ (m : ℕ). m == 1) (other ne))
]
  where
    f : IsFlag b.word (63 - i)
    f = pick-IsFlag b.word (63 - i)

    same : (i == j) ≡ true → bit (assign_bit b i val) j ≡ val
    same e =
        let ij : i ≡ j = (==_iff i j).0 e in
        rw (← ij, assign_bit-spelled b i val f)
          (rw (digit-spelled (63 - i) f.high (if val then 1 else 0) f.low (digit_lt val) f.fits)
            (ground arith))

    other :
        (i == j) ≡ false → (assign_bit b i val).word / 2 ^ (63 - j) % 2 ≡ b.word / 2 ^ (63 - j) % 2
    other ne =
        ap (λ (m : ℕ). m / 2 ^ (63 - j) % 2) (assign_bit-spelled b i val f)
        ∙ other_digit (63 - i) (63 - j) f.high (if val then 1 else 0) (b.word / 2 ^ (63 - i) % 2)
            f.low (ground arith) (digit_lt val) (omega arith) f.fits
        ∙ ap (λ (m : ℕ). m / 2 ^ (63 - j) % 2) (sym f.spells)

quotient-zero : (n p : ℕ) → 0 < p → n / p ≡ 0 → n < p
quotient-zero n p h e = omega (arith, div-add-mod' n p, mod-lt n h, ap (λ (t : ℕ). t * p) e)

pub assign_bit-IsWord :
    (b : BitSet) (i : ℕ) (val : Bool) → i ≤ 63 → IsWord b → IsWord (assign_bit b i val)
assign_bit-IsWord b i val hi h = quotient-zero _ (2 ^ 64) (omega arith) (
    ap (λ (m : ℕ). m / 2 ^ 64) (assign_bit-spelled b i val f)
    ∙ at_64 (if val then 1 else 0) (digit_lt val)
    ∙ sym (at_64 (b.word / 2 ^ (63 - i) % 2) (omega arith))
    ∙ ap (λ (m : ℕ). m / 2 ^ 64) (sym f.spells)
    ∙ div-eq_of_lt h)
  where
    f : IsFlag b.word (63 - i)
    f = pick-IsFlag b.word (63 - i)

    at_64 : (t : ℕ) → t < 2 → spelled (63 - i) f.high t f.low / 2 ^ 64 ≡ f.high / 2 ^ i
    at_64 t ht =
        let e : suc (63 - i) + i ≡ 64 = omega arith in
        ap (λ (m : ℕ). spelled (63 - i) f.high t f.low / 2 ^ m) (sym e)
        ∙ above (63 - i) i f.high t f.low ht f.fits

-- A bitmap that is read fits its word.
pub set_string-IsWord {ℓ} :
    {E : Type ℓ} (e : E) (s : Bytes) (base : ℕ) (b : BitSet) → set_string e s base ≡ ok b → IsWord b
unfolding set_string
set_string-IsWord e s base b h = ground (arith, parse_uint-lt_word base s b.word)

pub bit-assign_bit_self :
    (b : BitSet) (i : ℕ) (val : Bool) → i ≤ 63 → bit (assign_bit b i val) i ≡ val
bit-assign_bit_self b i val h = rw (bit-assign_bit b i i val h h, (==_iff i i).1 refl)

pub bit-assign_bit_ne :
    (b : BitSet) (i j : ℕ) (val : Bool)
    → i ≤ 63
    → j ≤ 63
    → i ≢ j
    → bit (assign_bit b i val) j ≡ bit b j
bit-assign_bit_ne b i j val h h' ne =
    let differs : (i == j) ≡ false = ground arith in rw (bit-assign_bit b i j val h h', differs)
