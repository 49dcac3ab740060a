-- ===== src/Iso/BitSet.antt =====
-- iso/bit_set.go: 64 flags in a `uint64`, the most significant bit first.
mod Bits
pub mod Laws
use Prim.Native.Nat.{bit_and, bit_or}
use longclaw.Base.{
  ℕ, ◌-◌, ◌/◌, ◌%◌, ◌^◌, ◌<◌, Bool, true, Bytes, ltb, ◌==◌, if◌then◌else◌, Go, ok, err, panic, ◌≡◌,
  refl, codes,
}
use longclaw.Strconv.{Scan, done, bad_digit, overflow, parse_uint, digits}

pub record BitSet : Type 0 where
  pub word : ℕ

-- `new(BitSet)`
abbrev pub zero_bits : BitSet
zero_bits = record { word = 0 }

-- `(b.data>>(63-index))&1 == 1`
abbrev pub bit : BitSet → ℕ → Bool
bit b index = b.word / 2 ^ (63 - index) % 2 == 1

-- A shift by a negative count panics.
unfoldable pub get_bit {ℓ} : {E : Type ℓ} → BitSet → ℕ → Go E Bool
get_bit b index = if ltb 63 index then panic else ok (bit b index)

-- `data &^= mask`, then `data |= mask` if the flag is to be set.
pub assign_bit : BitSet → ℕ → Bool → BitSet
assign_bit b index val =
    let mask = 2 ^ (63 - index) in
    let cleared = b.word - bit_and b.word mask in
    record { word = if val then bit_or cleared mask else cleared }

unfoldable pub set_bit {ℓ} : {E : Type ℓ} → BitSet → ℕ → Bool → Go E BitSet
unfolding assign_bit
set_bit b index val = if ltb 63 index then panic else ok (assign_bit b index val)

-- The error is that of `ParseUint`, which the caller wraps.
unfoldable pub set_string {ℓ} : {E : Type ℓ} → E → Bytes → ℕ → Go E BitSet
set_string e s base = elim (parse_uint base s) [
  | done v ↦ ok (record { word = v })
  | bad_digit ↦ err e
  | overflow ↦ err e
]

abbrev pub bit_len : ℕ
bit_len = 64

-- `%016X` of a `uint64`, which has at most 16 digits.
unfoldable pub to_hex : BitSet → Bytes
unfolding digits
to_hex b = digits 16 16 b.word

abbrev pub IsWord : BitSet → Type 0
IsWord b = b.word < 2 ^ 64

hex_runs : to_hex (record { word = 0x8220000000000000 }) ≡ codes "8220000000000000"
unfolding to_hex
hex_runs = refl

bits_run : bit (record { word = 0x8220000000000000 }) 6 ≡ true
bits_run = refl
