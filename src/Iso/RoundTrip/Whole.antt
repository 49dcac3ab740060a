-- ===== src/Iso/RoundTrip/Whole.antt =====
-- A whole message: the type, the bitmaps, and the fields that they announce.
use native.Mathlib.Decide.{dec_lt}
use longclaw.Base.{
  ℕ, zero, suc, ◌+◌, ◌-◌, ◌≤◌, ◌<◌, ◌≡◌, refl, sym, ap, ◌∙◌, fun_ext, inl, inr, arith, Bool, true,
  false, Option, none, some, [], ◌++◌, append_assoc, append-nil, Bytes, length, take, length-take,
  ok, ◌>>=◌, pos, max_int, slice-ok,
}
use longclaw.Iso.BitSet.{BitSet, bit, to_hex}
use longclaw.Iso.BitSet.Laws.{get_bit-bit, set_string-to_hex, length-to_hex}
use longclaw.Iso.Spec.{IsoSpec}
use longclaw.Iso.Message.{
  Message, Fields, mti, primary_bitmap, secondary_bitmap, invalid_primary, invalid_secondary,
  take_chars, parse_bits, parse_secondary, parse_fields_above, new_iso8583_message,
}
use longclaw.Iso.Edit.{get_mti}
use longclaw.Iso.Format.{format_fields, secondary_hex, field_cnt, format_iso}
use longclaw.Iso.WellFormed.{AgreesAbove, IsWellFormed}
use longclaw.Iso.RoundTrip.Value.{take_chars-append}
use longclaw.Iso.RoundTrip.Loop.{overlay, overlay_outside, overlay_inside, parse_bits-format_fields}

abbrev above_text : Option BitSet → Bytes
above_text none = []
above_text (some bits) = to_hex bits

abbrev high_text : IsoSpec → Fields → Option BitSet → Bytes
high_text spec fields none = []
high_text spec fields (some bits) = format_fields spec fields 64 64

-- The text of a message, part by part.
abbrev pub text : Message → Bytes
text m =
    take 4 m.message
    ++ (to_hex m.primary
        ++ (above_text m.secondary
            ++ (format_fields m.iso_spec m.fields 63 1
                ++ high_text m.iso_spec m.fields m.secondary)))

format_fields-add :
    (spec : IsoSpec) (fields : Fields) (n k key : ℕ)
    → format_fields spec fields (n + k) key
      ≡ format_fields spec fields n key ++ format_fields spec fields k (key + n)
unfolding format_fields
format_fields-add spec fields zero k key =
    let e : zero + k ≡ k = omega arith in let e' : key + zero ≡ key = omega arith in rw (e, e')
format_fields-add spec fields (suc n) k key =
    let e : suc n + k ≡ suc (n + k) = omega arith in
    let e' : key + suc n ≡ key + 1 + n = omega arith in
    rw (e, e', append_assoc) (rw (format_fields-add spec fields n k (key + 1)))

-- What `FormatIso` prints of the second bitmap and the fields.
printed_tail :
    {E : Type 0} (spec : IsoSpec) (fields : Fields) (flag : Bool) (above : Option BitSet)
    → AgreesAbove spec flag above fields
    → (front : Bytes → Bytes)
    → (secondary_hex {E = E} flag above >>= λ a.
        ok (front (a ++ format_fields spec fields (field_cnt flag - 1) 1)))
      ≡ ok (
          front
            (above_text above ++ (format_fields spec fields 63 1 ++ high_text spec fields above)))
unfolding secondary_hex
printed_tail spec fields true (some bits) a front =
    ap (λ t. ok (front (to_hex bits ++ t))) (format_fields-add spec fields 63 64 1)
printed_tail spec fields true none a front = absurd a
printed_tail spec fields false (some bits) a front = absurd a
printed_tail spec fields false none a front =
    ap (λ t. ok (front t)) (sym (append-nil (format_fields spec fields 63 1)))

get_mti_lem :
    {E : Type 0} (m : Message) → 4 ≤ length m.message → get_mti {E = E} m ≡ ok (take 4 m.message)
unfolding get_mti
get_mti_lem m h = slice-ok m.message 0 4 4 refl h

-- Printing a well-formed message does not panic, and prints its parts in order.
pub format_iso-text :
    {E : Type 0} (m : Message) → IsWellFormed m → format_iso {E = E} m ≡ ok (text m)
unfolding format_iso
format_iso-text m wf =
    rw (get_mti_lem m wf.has_mti, get_bit-bit m.primary 0 (omega arith))
      (printed_tail m.iso_spec m.fields (bit m.primary 0) m.secondary wf.high
        (λ t. take 4 m.message ++ (to_hex m.primary ++ t)))

parse_secondary-above :
    (spec : IsoSpec) (fields : Fields) (flag : Bool) (above : Option BitSet) (pre rest s : Bytes)
    → AgreesAbove spec flag above fields
    → s ≡ pre ++ (above_text above ++ rest)
    → length s ≤ max_int
    → parse_secondary s flag (length pre) ≡ ok (above, length (pre ++ above_text above))
unfolding parse_secondary
parse_secondary-above spec fields true (some bits) pre rest s (word, _, _) e room = rw (
  take_chars-append pre (to_hex bits) rest s secondary_bitmap 16 (length pre) e refl
      (sym (length-to_hex bits)) room,
  set_string-to_hex (invalid_secondary (to_hex bits)) bits word,
)
parse_secondary-above spec fields true none pre rest s a e room = absurd a
parse_secondary-above spec fields false (some bits) pre rest s a e room = absurd a
parse_secondary-above spec fields false none pre rest s a e room = rw append-nil

abbrev high_overlay : Fields → Fields → Option BitSet → Fields
high_overlay source fields none = fields
high_overlay source fields (some bits) = overlay source fields 64 64

parse_fields_above-high :
    (spec : IsoSpec) (source fields : Fields) (flag : Bool) (above : Option BitSet) (pre s : Bytes)
    → AgreesAbove spec flag above source
    → s ≡ pre ++ high_text spec source above
    → length s ≤ max_int
    → parse_fields_above spec s above (length pre) fields
      ≡ ok (length (pre ++ high_text spec source above), high_overlay source fields above)
unfolding parse_fields_above
parse_fields_above-high spec source fields true (some bits) pre s (_, agrees, _) e room =
    parse_bits-format_fields spec bits source 64 64 0 64 (length pre) pre [] s fields refl
      (omega arith) agrees (e ∙ ap (λ t. pre ++ t) (sym (append-nil _))) refl room
parse_fields_above-high spec source fields true none pre s a e room = absurd a
parse_fields_above-high spec source fields false (some bits) pre s a e room = absurd a
parse_fields_above-high spec source fields false none pre s a e room = rw append-nil

low_field :
    (source : Fields) (j : ℕ)
    → source 0 ≡ none
    → j < 64
    → overlay source (λ k. none) 1 63 j ≡ source j
low_field source zero z h = overlay_outside source (λ k. none) 1 63 0 (inl (omega arith)) ∙ sym z
low_field source (suc j) z h =
    overlay_inside source (λ k. none) 1 63 (suc j) (omega arith) (omega arith) refl

no_field_above : (source : Fields) (j : ℕ) → 64 ≤ j → overlay source (λ k. none) 1 63 j ≡ none
no_field_above source j h = overlay_outside source (λ k. none) 1 63 j (inr (omega arith))

-- The fields of a well-formed message are all among those that the bitmaps announce.
all_fields :
    (spec : IsoSpec) (source : Fields) (flag : Bool) (above : Option BitSet) (j : ℕ)
    → source 0 ≡ none
    → AgreesAbove spec flag above source
    → high_overlay source (overlay source (λ k. none) 1 63) above j ≡ source j
all_fields spec source true (some bits) j z (_, _, none_above) = elim (dec_lt j 64) [
  | yes lo ↦ overlay_outside source _ 64 64 j (inl lo) ∙ low_field source j z lo
  | no hi ↦ elim (dec_lt j 128) [
    | yes mid ↦
        overlay_inside source _ 64 64 j (omega arith) (omega arith)
          (no_field_above source j (omega arith))
    | no top ↦
        overlay_outside source _ 64 64 j (inr (omega arith))
        ∙ no_field_above source j (omega arith)
        ∙ sym (none_above j (omega arith))
  ]
]
all_fields spec source true none j z a = absurd a
all_fields spec source false (some bits) j z a = absurd a
all_fields spec source false none j z a = elim (dec_lt j 64) [
  | yes lo ↦ low_field source j z lo
  | no hi ↦ no_field_above source j (omega arith) ∙ sym (a j (omega arith))
]

-- The text of a well-formed message is read back to the same bitmaps and fields.
pub new_iso8583_message-text :
    (m : Message)
    → IsWellFormed m
    → length (text m) ≤ max_int
    → new_iso8583_message (text m) m.iso_spec ≡ ok (record m { message = text m })
unfolding new_iso8583_message
new_iso8583_message-text m wf room =
    rw
      (
        take_mti,
        take_primary,
        set_string-to_hex (invalid_primary (to_hex m.primary)) m.primary wf.word,
        get_bit-bit m.primary 0 (omega arith),
        second,
        lower,
        upper,
      )
      (ap (λ all. ok (record m { message = text m; fields = all }))
        (fun_ext (λ j.
          all_fields m.iso_spec m.fields (bit m.primary 0) m.secondary j wf.no_field_zero wf.high)))
  where
    kind : Bytes
    kind = take 4 m.message

    bits : Bytes
    bits = to_hex m.primary

    above : Bytes
    above = above_text m.secondary

    low : Bytes
    low = format_fields m.iso_spec m.fields 63 1

    high : Bytes
    high = high_text m.iso_spec m.fields m.secondary

    read_low : Fields
    read_low = overlay m.fields (λ k. none) 1 63

    four : 4 ≡ length kind
    four = omega (arith, length-take 4 m.message, wf.has_mti)

    take_mti : take_chars (text m) mti (pos 4) 0 ≡ ok (kind, length kind)
    take_mti =
        take_chars-append [] kind (bits ++ (above ++ (low ++ high))) (text m) mti 4 0 refl refl four
          room

    take_primary :
        take_chars (text m) primary_bitmap (pos 16) (length kind) ≡ ok (bits, length (kind ++ bits))
    take_primary =
        take_chars-append kind bits (above ++ (low ++ high)) (text m) primary_bitmap 16
          (length kind) refl refl (sym (length-to_hex m.primary)) room

    second :
        parse_secondary (text m) (bit m.primary 0) (length (kind ++ bits))
        ≡ ok (m.secondary, length ((kind ++ bits) ++ above))
    second =
        parse_secondary-above m.iso_spec m.fields (bit m.primary 0) m.secondary (kind ++ bits)
          (low ++ high) (text m) wf.high (sym (append_assoc kind bits _)) room

    to_fields : text m ≡ ((kind ++ bits) ++ above) ++ (low ++ high)
    to_fields = sym (append_assoc kind bits _) ∙ sym (append_assoc (kind ++ bits) above _)

    lower :
        parse_bits m.iso_spec
          (text m)
          m.primary
          0
          63
          1
          (length ((kind ++ bits) ++ above))
          (λ k. none)
        ≡ ok (length (((kind ++ bits) ++ above) ++ low), read_low)
    lower =
        parse_bits-format_fields m.iso_spec m.primary m.fields 0 63 1 1 _ ((kind ++ bits) ++ above)
          high (text m) (λ k. none) refl (omega arith) wf.low to_fields refl room

    upper :
        parse_fields_above m.iso_spec
          (text m)
          m.secondary
          (length (((kind ++ bits) ++ above) ++ low))
          read_low
        ≡ ok (
          length ((((kind ++ bits) ++ above) ++ low) ++ high),
          high_overlay m.fields read_low m.secondary,
        )
    upper =
        parse_fields_above-high m.iso_spec m.fields read_low (bit m.primary 0) m.secondary
          (((kind ++ bits) ++ above) ++ low) (text m) wf.high
          (to_fields ∙ sym (append_assoc ((kind ++ bits) ++ above) low high)) room
