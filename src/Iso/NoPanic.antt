-- ===== src/Iso/NoPanic.antt =====
-- The parser returns a message or an error and does not panic, whatever the text.
use longclaw.Base.{
  ℕ, zero, suc, ◌+◌, ◌^◌, ◌≤◌, ◌<◌, ◌≡◌, ◌≢◌, refl, arith, Bool, true, false, Option, none, some,
  Bytes, length, ok, err, panic, Go, Returns, Returns-bind, Returns-ne-panic, ℤ, pos, negsuc,
}
use longclaw.Strconv.Bounds.{atoi-lt_pow}
use longclaw.Iso.BitSet.{BitSet, bit, set_string}
use longclaw.Iso.BitSet.Laws.{get_bit-bit}
use longclaw.Iso.Spec.{FieldDef, IsoSpec, Kind, fixed, variable, unknown, field_kind}
use longclaw.Iso.Spec.Kinds.{Width, field_kind-Width}
use longclaw.Iso.Message.{
  Fields, Error, Part, mti, primary_bitmap, secondary_bitmap, field_value, field_length,
  invalid_primary, invalid_secondary, take_chars, parse_length, read_value, read_defined,
  parse_message, parse_bit, parse_bits, parse_secondary, parse_fields_above, new_iso8583_message,
}
use longclaw.Iso.Parsed.Value.{take_chars-ok, parse_length-ok}

-- A length that cannot overflow the cursor of a text of at most 2^62 bytes.
abbrev pub IsSmall : ℤ → Type 0
IsSmall (pos n) = n < 2 ^ 62
IsSmall (negsuc n) = Unit

pub record IsModest (spec : IsoSpec) : Type 0 where
  pub small : (k : ℤ) (d : FieldDef) → spec.field_def_map k ≡ some d → IsSmall d.min_length

module _ (s : Bytes) (room : length s ≤ 2 ^ 62) where
  abbrev Inside : Bytes × ℕ → Type 0
  Inside (v, after) = after ≤ length s

  no_wrap :
      (what : Part) (z : ℤ) (cur : ℕ)
      → IsSmall z
      → cur ≤ length s
      → Returns Inside (take_chars s what z cur)
  unfolding take_chars
  no_wrap what (negsuc n) cur small h = tt
  no_wrap what (pos n) cur small h = ground arith

  parse_length-Returns :
      (k field_no : ℕ) (digits : Bytes)
      → 10 ^ k ≤ 2 ^ 62
      → pos k ≡ pos (length digits)
      → Returns IsSmall (parse_length field_no digits)
  parse_length-Returns k field_no digits small e = go (parse_length field_no digits) refl
    where
      same : k ≡ length digits
      same = ground arith

      go : (r : Go Error ℤ) → parse_length field_no digits ≡ r → Returns IsSmall r
      go (ok (pos n)) h =
          let bound : n < 10 ^ k =
            rw same (atoi-lt_pow digits n (parse_length-ok field_no digits (pos n) h)) in
          omega arith
      go (ok (negsuc n)) h = tt
      go (err x) h = tt
      go panic h = unfold parse_length in ground arith

  read_value-Returns :
      (kind : Kind) (def : FieldDef) (field_no cur : ℕ)
      → Width kind
      → IsSmall def.min_length
      → cur ≤ length s
      → Returns Inside (read_value kind def s field_no cur)
  unfolding read_value
  read_value-Returns fixed def field_no cur w small h =
      no_wrap (field_value field_no) def.min_length cur small h
  read_value-Returns (variable k) def field_no cur w small h =
      Returns-bind Inside Inside (take_chars s (field_length field_no) (pos k) cur) _
        (no_wrap (field_length field_no) (pos k) cur (omega arith) h)
        λ (digits, c) e inside.
          Returns-bind IsSmall Inside (parse_length field_no digits) _
            (parse_length-Returns k field_no digits w.1
              (take_chars-ok s (field_length field_no) (pos k) cur digits c e).0)
            λ size e' size_small. no_wrap (field_value field_no) size c size_small inside
  read_value-Returns unknown def field_no cur w small h = tt

  module _ (spec : IsoSpec) (modest : IsModest spec) where
    read_defined-Returns :
        (def : Option FieldDef) (k : ℤ) (field_no cur : ℕ)
        → spec.field_def_map k ≡ def
        → cur ≤ length s
        → Returns Inside (read_defined def s field_no cur)
    unfolding read_defined
    read_defined-Returns none k field_no cur e h = tt
    read_defined-Returns (some def) k field_no cur e h =
        read_value-Returns (field_kind def.field_type) def field_no cur
          (field_kind-Width def.field_type) (modest.small k def e) h

    abbrev Onwards : ℕ × Fields → Type 0
    Onwards (after, fields) = after ≤ length s

    parse_bit-Returns :
        (key : ℕ) (present : Bool) (cur : ℕ) (fields : Fields)
        → cur ≤ length s
        → Returns Onwards (parse_bit spec s key present cur fields)
    unfolding parse_bit parse_message
    parse_bit-Returns key true cur fields h =
        Returns-bind Inside Onwards
          (read_defined (spec.field_def_map (pos (key + 1))) s (key + 1) cur) _
          (read_defined-Returns (spec.field_def_map (pos (key + 1))) (pos (key + 1)) (key + 1) cur
            refl h)
          λ (v, c) e inside. inside
    parse_bit-Returns key false cur fields h = h

    parse_bits-Returns :
        (bits : BitSet) (base rounds ind cur : ℕ) (fields : Fields)
        → ind + rounds ≤ 64
        → cur ≤ length s
        → Returns Onwards (parse_bits spec s bits base rounds ind cur fields)
    unfolding parse_bits
    parse_bits-Returns bits base zero ind cur fields top h = h
    parse_bits-Returns bits base (suc rounds) ind cur fields top h =
        rw (get_bit-bit bits ind (omega arith)) (
          Returns-bind Onwards Onwards (parse_bit spec s (base + ind) (bit bits ind) cur fields) _
            (parse_bit-Returns (base + ind) (bit bits ind) cur fields h)
            λ (c, more) e inside.
              parse_bits-Returns bits base rounds (ind + 1) c more (omega arith) inside)

    abbrev Opened : Option BitSet × ℕ → Type 0
    Opened (above, after) = after ≤ length s

    set_string-Returns : (e : Error) (digits : Bytes) → Returns (λ b. Unit) (set_string e digits 16)
    set_string-Returns e digits = unfold set_string in ground arith

    parse_secondary-Returns :
        (flag : Bool) (cur : ℕ) → cur ≤ length s → Returns Opened (parse_secondary s flag cur)
    unfolding parse_secondary
    parse_secondary-Returns true cur h =
        Returns-bind Inside Opened (take_chars s secondary_bitmap (pos 16) cur) _
          (no_wrap secondary_bitmap (pos 16) cur (omega arith) h)
          λ (digits, c) e inside.
            Returns-bind (λ b. Unit) Opened (set_string (invalid_secondary digits) digits 16) _
              (set_string-Returns (invalid_secondary digits) digits) λ b e' _. inside
    parse_secondary-Returns false cur h = h

    parse_fields_above-Returns :
        (above : Option BitSet) (cur : ℕ) (fields : Fields)
        → cur ≤ length s
        → Returns Onwards (parse_fields_above spec s above cur fields)
    unfolding parse_fields_above
    parse_fields_above-Returns none cur fields h = h
    parse_fields_above-Returns (some bits) cur fields h =
        parse_bits-Returns bits 64 64 0 cur fields (omega arith) h

    new_iso8583_message-Returns : Returns (λ m. Unit) (new_iso8583_message s spec)
    unfolding new_iso8583_message
    new_iso8583_message-Returns =
        Returns-bind Inside (λ m. Unit) (take_chars s mti (pos 4) 0) _
          (no_wrap mti (pos 4) 0 (omega arith) (omega arith))
          λ (_, c1) _ i1.
            Returns-bind Inside (λ m. Unit) (take_chars s primary_bitmap (pos 16) c1) _
              (no_wrap primary_bitmap (pos 16) c1 (omega arith) i1)
              λ (digits, c2) _ i2.
                Returns-bind (λ b. Unit) (λ m. Unit) (set_string (invalid_primary digits) digits 16)
                  _ (set_string-Returns (invalid_primary digits) digits)
                  λ bits _ _. rw (get_bit-bit bits 0 (omega arith)) (
                    Returns-bind Opened (λ m. Unit) (parse_secondary s (bit bits 0) c2) _
                      (parse_secondary-Returns (bit bits 0) c2 i2)
                      λ (above, c3) _ i3.
                        Returns-bind Onwards (λ m. Unit)
                          (parse_bits spec s bits 0 63 1 c3 (λ k. none)) _
                          (parse_bits-Returns bits 0 63 1 c3 (λ k. none) (omega arith) i3)
                          λ (c4, low) _ i4.
                            Returns-bind Onwards (λ m. Unit)
                              (parse_fields_above spec s above c4 low) _
                              (parse_fields_above-Returns above c4 low i4) λ _ _ _. tt)

-- No text of at most 2^62 bytes makes the parser panic, if the specification's fixed lengths are
-- below 2^62.
pub new_iso8583_message-ne-panic :
    (s : Bytes) (spec : IsoSpec)
    → length s ≤ 2 ^ 62
    → IsModest spec
    → new_iso8583_message s spec ≢ panic
new_iso8583_message-ne-panic s spec room modest =
    Returns-ne-panic (λ m. Unit) (new_iso8583_message s spec)
      (new_iso8583_message-Returns s room spec modest)
