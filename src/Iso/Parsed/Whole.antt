-- ===== src/Iso/Parsed/Whole.antt =====
-- An accepted message: its bitmaps and its fields.
use mathlib.Core.Path.{subst}
use longclaw.Base.{
  ℕ, ◌+◌, ◌≤◌, ◌<◌, ◌≡◌, refl, ap, ◌∙◌, arith, Bool, true, false, Option, none, some, Bytes, length,
  inl, inr, ok, >>=-eq-ok, ok-injective, pos,
}
use longclaw.Iso.BitSet.{BitSet, bit, set_string, IsWord}
use longclaw.Iso.BitSet.Laws.{get_bit-bit, set_string-IsWord}
use longclaw.Iso.Spec.{IsoSpec}
use longclaw.Iso.Message.{
  Message, Fields, mti, primary_bitmap, secondary_bitmap, invalid_primary, invalid_secondary,
  take_chars, parse_bits, parse_secondary, parse_fields_above, new_iso8583_message,
}
use longclaw.Iso.WellFormed.{AgreesAbove, IsWellFormed}
use longclaw.Iso.Parsed.Value.{take_chars-ok}
use longclaw.Iso.Parsed.Loop.{StoredOn, parse_bits-ok}

-- The second bitmap is there exactly if the first flag says so.
abbrev Announced : Bool → Option BitSet → Type 0
Announced true (some bits) = IsWord bits
Announced true none = ⊥
Announced false (some bits) = ⊥
Announced false none = Unit

parse_secondary-ok :
    (s : Bytes) (flag : Bool) (cur after : ℕ) (above : Option BitSet)
    → parse_secondary s flag cur ≡ ok (above, after)
    → Announced flag above
unfolding parse_secondary
parse_secondary-ok s true cur after above e =
    let ((digits, c), e1, e2) = >>=-eq-ok (take_chars s secondary_bitmap (pos 16) cur) _ e in
    let (bits, e3, e4) = >>=-eq-ok (set_string (invalid_secondary digits) digits 16) _ e2 in
    let same : above ≡ some bits = cc in
    rw same (set_string-IsWord (invalid_secondary digits) digits 16 bits e3)
parse_secondary-ok s false cur after above e = let same : above ≡ none = cc in rw same tt

-- The low fields lie below 64, and the rest of the parse stores only above.
above-ok :
    (spec : IsoSpec) (s : Bytes) (flag : Bool) (bits : BitSet) (above : Option BitSet)
    (cur after : ℕ) (low out : Fields)
    → Announced flag above
    → StoredOn spec bits 0 1 63 (λ k. none) low
    → parse_fields_above spec s above cur low ≡ ok (after, out)
    → AgreesAbove spec flag above out × ((j : ℕ) → j < 64 → out j ≡ low j)
unfolding parse_fields_above
above-ok spec s true bits (some b) cur after low out word stored e =
    let fresh : (j : ℕ) → 64 ≤ j → low j ≡ none = λ j h. stored.others j (inr h) in
    let more = parse_bits-ok spec s b 64 64 0 cur after low out (omega arith) fresh e in
    (
      (word, more.agrees, λ j h. more.others j (inr h) ∙ fresh j (omega arith)),
      λ j h. more.others j (inl h),
    )
above-ok spec s true bits none cur after low out a stored e = absurd a
above-ok spec s false bits (some b) cur after low out a stored e = absurd a
above-ok spec s false bits none cur after low out a stored e =
    let same : out ≡ low = cc in
    (
      λ j h. ap (λ (f : Fields). f j) same ∙ stored.others j (inr h),
      λ j h. ap (λ (f : Fields). f j) same,
    )

-- The results of the parser's steps make a well-formed message.
module _ (s kind digits : Bytes) (spec : IsoSpec) (bits : BitSet) (above : Option BitSet)
    (c1 c2 c5 c6 c7 : ℕ) (low all : Fields) (t1 : take_chars s mti (pos 4) 0 ≡ ok (kind, c1))
    (t3 : set_string (invalid_primary digits) digits 16 ≡ ok bits)
    (t5 : parse_secondary s (bit bits 0) c2 ≡ ok (above, c5))
    (t6 : parse_bits spec s bits 0 63 1 c5 (λ k. none) ≡ ok (c6, low))
    (t7 : parse_fields_above spec s above c6 low ≡ ok (c7, all)) where
  stored : StoredOn spec bits 0 1 63 (λ k. none) low
  stored = parse_bits-ok spec s bits 0 63 1 c5 c6 (λ k. none) low (omega arith) (λ j h. refl) t6

  high_part : AgreesAbove spec (bit bits 0) above all × ((j : ℕ) → j < 64 → all j ≡ low j)
  high_part =
      above-ok spec s (bit bits 0) bits above c6 c7 low all
        (parse_secondary-ok s (bit bits 0) c2 c5 above t5) stored t7

  four : 4 ≤ length s
  four = let (e, after, inside) = take_chars-ok s mti (pos 4) 0 kind c1 t1 in ground arith

  assembled :
      IsWellFormed
        (record { message = s; primary = bits; secondary = above; fields = all; iso_spec = spec })
  assembled = record {
    has_mti = four;
    word = set_string-IsWord (invalid_primary digits) digits 16 bits t3;
    no_field_zero = high_part.1 0 (omega arith) ∙ stored.others 0 (inl (omega arith));
    low = λ j lo hi. rw (high_part.1 (0 + j) (omega arith)) (stored.agrees j lo hi);
    high = high_part.0;
  }

abbrev Accepted : Bytes → IsoSpec → Message → Type 0
Accepted s spec m = IsWellFormed m × (m.message ≡ s) × (m.iso_spec ≡ spec)

-- Every accepted text gives a well-formed message over that text.
pub new_iso8583_message-IsWellFormed :
    (s : Bytes) (spec : IsoSpec) (m : Message)
    → new_iso8583_message s spec ≡ ok m
    → IsWellFormed m × (m.message ≡ s) × (m.iso_spec ≡ spec)
unfolding new_iso8583_message
new_iso8583_message-IsWellFormed s spec m e =
    let ((kind, c1), t1, e1) = >>=-eq-ok (take_chars s mti (pos 4) 0) _ e in
    let ((digits, c2), t2, e2) = >>=-eq-ok (take_chars s primary_bitmap (pos 16) c1) _ e1 in
    let (bits, t3, e3) = >>=-eq-ok (set_string (invalid_primary digits) digits 16) _ e2 in
    let e4 = rw (get_bit-bit bits 0 (omega arith)) at e3 in
    let ((above, c5), t5, e5) = >>=-eq-ok (parse_secondary s (bit bits 0) c2) _ e4 in
    let ((c6, low), t6, e6) = >>=-eq-ok (parse_bits spec s bits 0 63 1 c5 (λ k. none)) _ e5 in
    let ((c7, all), t7, e7) = >>=-eq-ok (parse_fields_above spec s above c6 low) _ e6 in
    subst (Accepted s spec) (ok-injective e7)
      (assembled s kind digits spec bits above c1 c2 c5 c6 c7 low all t1 t3 t5 t6 t7, refl, refl)
