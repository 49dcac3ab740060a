-- ===== src/Iso/RoundTrip/Value.antt =====
-- Reading back one field.
use longclaw.Base.{
  ℕ, ◌+◌, ◌^◌, ◌≤◌, ◌<◌, ◌≡◌, refl, sym, ap, ◌∙◌, arith, Option, none, some, ◌++◌, append_assoc,
  Bytes, length, take, drop, length-append, take-append, drop-append, gt→leb, ge→ltb, ok, pos,
  max_int,
}
use longclaw.Strconv.{format_padded}
use longclaw.Strconv.Digits.{format_padded_fits, length-digits, atoi-format_padded}
use longclaw.Iso.Spec.{FieldDef, Kind, fixed, variable, unknown, field_kind}
use longclaw.Iso.Spec.Kinds.{Width, field_kind-Width}
use longclaw.Iso.Message.{
  Part, field_value, field_length, take_chars, parse_length, read_value, read_defined,
}
use longclaw.Iso.Format.{format_kind, format_value}
use longclaw.Iso.WellFormed.{FitsKind, FitsDef}

-- Taking what stands behind a prefix.
pub take_chars-append :
    (pre v rest s : Bytes) (what : Part) (n cur : ℕ)
    → s ≡ pre ++ (v ++ rest)
    → cur ≡ length pre
    → n ≡ length v
    → length s ≤ max_int
    → take_chars s what (pos n) cur ≡ ok (v, length (pre ++ v))
unfolding take_chars
take_chars-append pre v rest s what n cur e ecur en fits =
    rw
      (
        gt→leb (2 ^ 63) (cur + n) (omega (arith, len, len2)),
        ge→ltb (length s) (cur + n) (omega (arith, len, len2)),
      )
      (ap ok λ i. (taken i, after i))
  where
    len : length s ≡ length pre + length (v ++ rest)
    len = ap length e ∙ length-append pre (v ++ rest)

    len2 : length (v ++ rest) ≡ length v + length rest
    len2 = length-append v rest

    taken : take n (drop cur s) ≡ v
    taken =
        ap (λ t. take n (drop cur t)) e
        ∙ ap (λ t. take n t) (drop-append pre (v ++ rest) cur ecur)
        ∙ take-append v rest n en

    after : cur + n ≡ length (pre ++ v)
    after = omega (arith, length-append pre v)

-- The length digits are read back.
parse_length-format_padded :
    (k n field_no : ℕ)
    → 0 < k
    → 10 ^ k ≤ 2 ^ 62
    → n < 10 ^ k
    → parse_length field_no (format_padded k n) ≡ ok (pos n)
unfolding parse_length
parse_length-format_padded k n field_no p q h =
    rw (atoi-format_padded k n p h (omega arith), parse_length)

read_value-format_kind :
    (kind : Kind) (def : FieldDef) (field_no cur : ℕ) (pre v rest s : Bytes)
    → Width kind
    → FitsKind kind def v
    → s ≡ pre ++ (format_kind kind v ++ rest)
    → cur ≡ length pre
    → length s ≤ max_int
    → read_value kind def s field_no cur ≡ ok (v, length (pre ++ format_kind kind v))
unfolding read_value format_kind
read_value-format_kind fixed def field_no cur pre v rest s w fits e ecur room =
    rw fits (take_chars-append pre v rest s (field_value field_no) (length v) cur e ecur refl room)
read_value-format_kind (variable k) def field_no cur pre v rest s (k_pos, k_small, _) fits e ecur
      room =
    rw
      (take_length, parse_length-format_padded k (length v) field_no k_pos k_small fits, take_value)
      (ap (λ t. ok (v, length t)) (append_assoc pre prefix v))
  where
    prefix : Bytes
    prefix = format_padded k (length v)

    behind : s ≡ pre ++ (prefix ++ (v ++ rest))
    behind = e ∙ ap (λ t. pre ++ t) (append_assoc prefix v rest)

    width : k ≡ length prefix
    width =
        sym (ap length (format_padded_fits k (length v) k_pos fits) ∙ length-digits 10 k (length v))

    take_length :
        take_chars s (field_length field_no) (pos k) cur ≡ ok (prefix, length (pre ++ prefix))
    take_length =
        take_chars-append pre prefix (v ++ rest) s (field_length field_no) k cur behind ecur width
          room

    take_value :
        take_chars s (field_value field_no) (pos (length v)) (length (pre ++ prefix))
        ≡ ok (v, length ((pre ++ prefix) ++ v))
    take_value =
        take_chars-append (pre ++ prefix) v rest s (field_value field_no) (length v)
          (length (pre ++ prefix)) (behind ∙ sym (append_assoc pre prefix (v ++ rest))) refl refl
          room
read_value-format_kind unknown def field_no cur pre v rest s w fits e ecur room = absurd fits

-- A field that fits its definition is read back, and the cursor stands behind it.
pub read_defined-format_value :
    (def : Option FieldDef) (field_no cur : ℕ) (pre v rest s : Bytes)
    → FitsDef def v
    → s ≡ pre ++ (format_value def v ++ rest)
    → cur ≡ length pre
    → length s ≤ max_int
    → read_defined def s field_no cur ≡ ok (v, length (pre ++ format_value def v))
unfolding read_defined format_value
read_defined-format_value none field_no cur pre v rest s fits e ecur room = absurd fits
read_defined-format_value (some def) field_no cur pre v rest s fits e ecur room =
    read_value-format_kind (field_kind def.field_type) def field_no cur pre v rest s
      (field_kind-Width def.field_type) fits e ecur room
