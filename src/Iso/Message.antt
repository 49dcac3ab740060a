-- ===== src/Iso/Message.antt =====
-- iso/iso_messages.go: the message type and `NewIso8583Message`, the parser.
use longclaw.Base.{
  ℕ, zero, suc, ◌+◌, ◌-◌, ◌^◌, Bool, true, false, Option, none, some, Bytes, length, take, drop,
  ltb, leb, if◌then◌else◌, Go, ok, err, panic, ◌>>=◌, ℤ, pos, negsuc, update,
}
use longclaw.Strconv.{number, not_number, out_of_range, atoi}
use longclaw.Iso.BitSet.{BitSet, bit_len, get_bit, set_string}
use longclaw.Iso.Spec.{FieldDef, IsoSpec, Kind, fixed, variable, unknown, field_kind}

-- What a truncated message was too short for.
pub data Part : Type 0 where
  mti : Part
  primary_bitmap : Part
  secondary_bitmap : Part
  field_value : ℕ → Part
  field_length : ℕ → Part

pub data Error : Type 0 where
  too_short : Part → ℕ → ℕ → Error
  invalid_primary : Bytes → Error
  invalid_secondary : Bytes → Error
  not_in_spec : ℕ → Error
  unknown_type : ℕ → Bytes → Error
  invalid_length : ℕ → Bytes → Error

abbrev pub Fields : Type 0
Fields = ℕ → Option Bytes

pub record Message : Type 0 where
  pub message : Bytes
  pub primary : BitSet
  pub secondary : Option BitSet
  pub fields : Fields
  pub iso_spec : IsoSpec

-- `take` of the parser and the error of its caller. The sum `currIndex+n` wraps around: it is then
-- negative, passes the test, and the slice expression panics.
unfoldable pub take_chars : Bytes → Part → ℤ → ℕ → Go Error (Bytes × ℕ)
take_chars s what (negsuc n) cur = err (too_short what cur (length s))
take_chars s what (pos n) cur =
    if leb (2 ^ 63) (cur + n)
    then panic
    else if ltb (length s) (cur + n)
    then err (too_short what cur (length s))
    else ok (take n (drop cur s), cur + n)

-- `strconv.Atoi` on the length digits
unfoldable pub parse_length : ℕ → Bytes → Go Error ℤ
parse_length field_no digits = elim (atoi digits) [
  | number z ↦ ok z
  | not_number ↦ err (invalid_length field_no digits)
  | out_of_range z ↦ err (invalid_length field_no digits)
]

-- The switch on the field's type.
unfoldable pub read_value : Kind → FieldDef → Bytes → ℕ → ℕ → Go Error (Bytes × ℕ)
read_value fixed def s field_no cur = take_chars s (field_value field_no) def.min_length cur
read_value (variable length_digits) def s field_no cur = do
  (length_str, after) ← take_chars s (field_length field_no) (pos length_digits) cur
  size ← parse_length field_no length_str
  take_chars s (field_value field_no) size after
read_value unknown def s field_no cur = err (unknown_type field_no def.field_type)

unfoldable pub read_defined : Option FieldDef → Bytes → ℕ → ℕ → Go Error (Bytes × ℕ)
read_defined none s field_no cur = err (not_in_spec field_no)
read_defined (some def) s field_no cur = read_value (field_kind def.field_type) def s field_no cur

-- The closure `parseMessage`.
unfoldable pub parse_message : IsoSpec → Bytes → ℕ → ℕ → Go Error (Bytes × ℕ)
unfolding take_chars parse_length read_value read_defined
parse_message spec s ind cur = read_defined (spec.field_def_map (pos (ind + 1))) s (ind + 1) cur

-- One round of the loops over the bitmaps; `base` is 0 for the primary and 64 for the secondary.
unfoldable pub parse_bit : IsoSpec → Bytes → ℕ → Bool → ℕ → Fields → Go Error (ℕ × Fields)
parse_bit spec s key true cur fields = do
  (value, after) ← parse_message spec s key cur
  ok (after, update fields key value)
parse_bit spec s key false cur fields = ok (cur, fields)

unfoldable pub parse_bits :
    IsoSpec → Bytes → BitSet → ℕ → ℕ → ℕ → ℕ → Fields → Go Error (ℕ × Fields)
parse_bits spec s bits base zero ind cur fields = ok (cur, fields)
parse_bits spec s bits base (suc rounds) ind cur fields = do
  present ← get_bit bits ind
  (after, more) ← parse_bit spec s (base + ind) present cur fields
  parse_bits spec s bits base rounds (ind + 1) after more

unfoldable pub parse_secondary : Bytes → Bool → ℕ → Go Error (Option BitSet × ℕ)
parse_secondary s false cur = ok (none, cur)
parse_secondary s true cur = do
  (digits, after) ← take_chars s secondary_bitmap (pos 16) cur
  bits ← set_string (invalid_secondary digits) digits 16
  ok (some bits, after)

unfoldable pub parse_fields_above :
    IsoSpec → Bytes → Option BitSet → ℕ → Fields → Go Error (ℕ × Fields)
parse_fields_above spec s none cur fields = ok (cur, fields)
parse_fields_above spec s (some bits) cur fields = parse_bits spec s bits 64 bit_len 0 cur fields

unfoldable pub new_iso8583_message : Bytes → IsoSpec → Go Error Message
unfolding parse_secondary parse_fields_above
new_iso8583_message s spec = do
  (_, after_mti) ← take_chars s mti (pos 4) 0
  (digits, after_primary) ← take_chars s primary_bitmap (pos 16) after_mti
  bits ← set_string (invalid_primary digits) digits 16
  extended ← get_bit bits 0
  (above, after_bitmaps) ← parse_secondary s extended after_primary
  (after_low, low) ← parse_bits spec s bits 0 (bit_len - 1) 1 after_bitmaps (λ k. none)
  (_, all) ← parse_fields_above spec s above after_low low
  ok (record { message = s; primary = bits; secondary = above; fields = all; iso_spec = spec })
