-- ===== src/Iso/Parsed/Value.antt =====
-- An accepted field fits its definition.
use longclaw.Base.{
  ℕ, ◌+◌, ◌^◌, ◌≤◌, ◌<◌, ◌≡◌, ap, ◌∙◌, arith, Option, none, some, Bytes, length, drop, length-take,
  length-drop, ok, >>=-eq-ok, ℤ, pos, negsuc,
}
use longclaw.Strconv.{number, atoi}
use longclaw.Strconv.Bounds.{atoi-lt_pow}
use longclaw.Iso.Spec.{FieldDef, Kind, fixed, variable, unknown, field_kind}
use longclaw.Iso.Message.{
  Part, field_value, field_length, take_chars, parse_length, read_value, read_defined,
}
use longclaw.Iso.WellFormed.{FitsKind, FitsDef}

-- What is taken has the length asked for and lies inside the text.
pub take_chars-ok :
    (s : Bytes) (what : Part) (z : ℤ) (cur : ℕ) (v : Bytes) (after : ℕ)
    → take_chars s what z cur ≡ ok (v, after)
    → (z ≡ pos (length v)) × (after ≡ cur + length v) × (after ≤ length s)
unfolding take_chars
take_chars-ok s what (negsuc n) cur v after e = cc
take_chars-ok s what (pos n) cur v after e =
    ground (arith, length-take {0} n (drop cur s), length-drop {0} cur s)

pub parse_length-ok :
    (field_no : ℕ) (digits : Bytes) (z : ℤ)
    → parse_length field_no digits ≡ ok z
    → atoi digits ≡ number z
unfolding parse_length
parse_length-ok field_no digits z e = ground arith

size-lt :
    (k field_no : ℕ) (digits : Bytes) (size : ℤ) (v : Bytes)
    → pos k ≡ pos (length digits)
    → parse_length field_no digits ≡ ok size
    → size ≡ pos (length v)
    → length v < 10 ^ k
size-lt k field_no digits size v ek e es =
    rw same (atoi-lt_pow digits (length v) (parse_length-ok field_no digits size e ∙ ap number es))
  where
    same : k ≡ length digits
    same = ground arith

read_value-ok :
    (kind : Kind) (def : FieldDef) (s : Bytes) (field_no cur : ℕ) (v : Bytes) (after : ℕ)
    → read_value kind def s field_no cur ≡ ok (v, after)
    → FitsKind kind def v
unfolding read_value
read_value-ok fixed def s field_no cur v after e =
    (take_chars-ok s (field_value field_no) def.min_length cur v after e).0
read_value-ok (variable k) def s field_no cur v after e =
    let ((digits, c), e1, e2) = >>=-eq-ok (take_chars s (field_length field_no) (pos k) cur) _ e in
    let (size, e3, e4) = >>=-eq-ok (parse_length field_no digits) _ e2 in
    size-lt k field_no digits size v
      (take_chars-ok s (field_length field_no) (pos k) cur digits c e1).0 e3
      (take_chars-ok s (field_value field_no) size c v after e4).0
read_value-ok unknown def s field_no cur v after e = cc

pub read_defined-ok :
    (def : Option FieldDef) (s : Bytes) (field_no cur : ℕ) (v : Bytes) (after : ℕ)
    → read_defined def s field_no cur ≡ ok (v, after)
    → FitsDef def v
unfolding read_defined
read_defined-ok none s field_no cur v after e = cc
read_defined-ok (some def) s field_no cur v after e =
    read_value-ok (field_kind def.field_type) def s field_no cur v after e
