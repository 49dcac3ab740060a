-- ===== src/Strconv.antt =====
-- What the program uses of Go's `strconv` and of `fmt`'s verbs for numbers: `ParseUint`, `ParseInt`,
-- `Atoi`, `%0wd` and `%016X`.
pub mod Digits
pub mod Bounds
use Prim.Native.Nat.{max}
use longclaw.Base.{
  ℕ, zero, suc, ◌+◌, ◌-◌, ◌*◌, ◌/◌, ◌%◌, ◌^◌, Bool, true, false, ◌&&◌, List, [], ◌∷◌, ◌++◌, Bytes,
  ltb, leb, ◌==◌, if◌then◌else◌, ℤ, pos, negsuc, ◌≡◌, refl, codes,
}

-- The value of a digit or a letter; any other byte has no value below 36.
pub digit_value : ℕ → ℕ
digit_value c =
    if leb b'0' c && leb c b'9'
    then c - b'0'
    else if leb b'a' c && leb c b'z'
    then c - b'a' + 10
    else if leb b'A' c && leb c b'Z'
    then c - b'A' + 10
    else 36

-- The outcome of `ParseUint(s, base, 64)`.
pub data Scan : Type 0 where
  done : ℕ → Scan
  bad_digit : Scan
  overflow : Scan

-- The loop of `ParseUint`: overflow is seen as soon as it happens, before later bytes are read.
unfoldable pub scan : ℕ → Bytes → ℕ → Scan
unfolding digit_value
scan base [] n = done n
scan base (c ∷ s) n =
    let d = digit_value c in
    let rest = scan base s (n * base + d) in
    if leb base d then bad_digit else if leb (2 ^ 64) (n * base + d) then overflow else rest

unfoldable pub parse_uint : ℕ → Bytes → Scan
unfolding scan
parse_uint base [] = bad_digit
parse_uint base (c ∷ s) = scan base (c ∷ s) 0

-- The outcome of `ParseInt(s, 10, 64)` and `Atoi(s)`; a range error comes with the nearest `int64`.
pub data Num : Type 0 where
  number : ℤ → Num
  not_number : Num
  out_of_range : ℤ → Num

abbrev pub negate : ℕ → ℤ
negate zero = pos 0
negate (suc n) = negsuc n

positive : Scan → Num
positive (done n) = if leb (2 ^ 63) n then out_of_range (pos (2 ^ 63 - 1)) else number (pos n)
positive bad_digit = not_number
positive overflow = out_of_range (pos (2 ^ 63 - 1))

negative : Scan → Num
negative (done n) = if ltb (2 ^ 63) n then out_of_range (negsuc (2 ^ 63 - 1)) else number (negate n)
negative bad_digit = not_number
negative overflow = out_of_range (negsuc (2 ^ 63 - 1))

unfoldable pub atoi : Bytes → Num
unfolding parse_uint positive negative
atoi [] = not_number
atoi (c ∷ s) =
    if c == b'-'
    then negative (parse_uint 10 s)
    else if c == b'+'
    then positive (parse_uint 10 s)
    else positive (parse_uint 10 (c ∷ s))

-- `n, _ := strconv.Atoi(s)`: the number that comes with an error is used.
abbrev pub ignore_error : Num → ℤ
ignore_error (number z) = z
ignore_error not_number = pos 0
ignore_error (out_of_range z) = z

pub digit_char : ℕ → ℕ
digit_char d = if ltb d 10 then b'0' + d else b'A' + (d - 10)

-- The `w` lowest digits.
unfoldable pub digits : ℕ → ℕ → ℕ → Bytes
unfolding digit_char
digits base zero n = []
digits base (suc w) n = digits base w (n / base) ++ digit_char (n % base) ∷ []

-- How many decimal digits `n` has, up to one more than the fuel.
count_digits : ℕ → ℕ → ℕ
count_digits zero n = 1
count_digits (suc fuel) n =
    let rest = count_digits fuel (n / 10) in if ltb n 10 then 1 else suc rest

-- `%0wd` of a natural number below 2^63, which has at most 19 digits.
unfoldable pub format_padded : ℕ → ℕ → Bytes
unfolding digits count_digits
format_padded w n = digits 10 (max w (count_digits 20 n)) n

-- `%0wd` of a signed number: the sign counts in the width.
unfoldable pub format_int : ℕ → ℤ → Bytes
unfolding format_padded
format_int w (pos n) = format_padded w n
format_int w (negsuc n) = b'-' ∷ format_padded (w - 1) (suc n)

atoi_runs :
    (atoi (codes "-12") ≡ number (negsuc 11))
    × (atoi (codes "+7") ≡ number (pos 7))
    × (atoi (codes "1x") ≡ not_number)
    × (atoi (codes "9223372036854775808x") ≡ not_number)
    × (atoi (codes "18446744073709551616x") ≡ out_of_range (pos 9223372036854775807))
unfolding atoi
atoi_runs = (refl, refl, refl, refl, refl)

format_runs :
    (format_int 4 (pos 110) ≡ codes "0110")
    × (format_int 2 (pos 123) ≡ codes "123")
    × (format_int 6 (negsuc 4) ≡ codes "-00005")
    × (digits 16 4 0xab0f ≡ codes "AB0F")
unfolding format_int digits
format_runs = (refl, refl, refl, refl)
