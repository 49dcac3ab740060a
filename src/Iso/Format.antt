-- ===== src/Iso/Format.antt =====
-- iso/iso_messages.go: `FormatIso`, the text on the wire, and `FormatPrint`, the one for people.
use longclaw.Base.{
  ℕ, zero, suc, ◌+◌, Bool, true, false, Option, none, some, [], ◌++◌, Bytes, codes, length, Go, ok,
  panic, ◌>>=◌, pos, if◌then◌else◌, ◌-◌,
}
use longclaw.Strconv.{format_padded}
use longclaw.Iso.BitSet.{BitSet, get_bit, to_hex}
use longclaw.Iso.Spec.{FieldDef, IsoSpec, Kind, fixed, variable, unknown, field_kind}
use longclaw.Iso.Message.{Message, Fields}
use longclaw.Iso.Edit.{get_mti}

-- The switch on the field's type: a variable field has its length in front.
unfoldable pub format_kind : Kind → Bytes → Bytes
format_kind fixed val = val
format_kind (variable length_digits) val = format_padded length_digits (length val) ++ val
format_kind unknown val = []

-- A field that the specification does not have is left out.
unfoldable pub format_value : Option FieldDef → Bytes → Bytes
format_value none val = []
format_value (some def) val = format_kind (field_kind def.field_type) val

unfoldable pub format_field : IsoSpec → ℕ → Option Bytes → Bytes
format_field spec field none = []
format_field spec field (some val) = format_value (spec.field_def_map (pos (field + 1))) val

-- `for field := 1; field < fieldCnt; field++`, from `field` on.
unfoldable pub format_fields : IsoSpec → Fields → ℕ → ℕ → Bytes
format_fields spec fields zero field = []
format_fields spec fields (suc rounds) field =
    format_field spec field (fields field) ++ format_fields spec fields rounds (field + 1)

-- The secondary bitmap is printed where the first flag says so; through a nil pointer that panics.
unfoldable pub secondary_hex {ℓ} : {E : Type ℓ} → Bool → Option BitSet → Go E Bytes
secondary_hex false above = ok []
secondary_hex true none = panic
secondary_hex true (some bits) = ok (to_hex bits)

abbrev pub field_cnt : Bool → ℕ
field_cnt extended = if extended then 64 + 64 else 64

unfoldable pub format_iso {ℓ} : {E : Type ℓ} → Message → Go E Bytes
unfolding get_mti secondary_hex
format_iso m = do
  mti ← get_mti m
  extended ← get_bit m.primary 0
  above ← secondary_hex extended m.secondary
  ok (
      mti
      ++ (to_hex m.primary
          ++ (above ++ format_fields m.iso_spec m.fields (field_cnt extended - 1) 1)))

print_field : ℕ → Option Bytes → Bytes
print_field field none = []
print_field field (some val) =
    codes "\nDE[" ++ (format_padded 1 (field + 1) ++ (codes "] : " ++ val))

print_fields : Fields → ℕ → ℕ → Bytes
unfolding print_field
print_fields fields zero field = []
print_fields fields (suc rounds) field =
    print_field field (fields field) ++ print_fields fields rounds (field + 1)

secondary_line {ℓ} : {E : Type ℓ} → Bool → Option BitSet → Go E Bytes
secondary_line false above = ok []
secondary_line true none = panic
secondary_line true (some bits) = ok (codes "\nSecondaryBitMap : " ++ to_hex bits)

unfoldable pub format_print {ℓ} : {E : Type ℓ} → Message → Go E Bytes
unfolding get_mti secondary_line print_fields
format_print m = do
  mti ← get_mti m
  extended ← get_bit m.primary 0
  above ← secondary_line extended m.secondary
  ok (
      codes "MTI : "
      ++ (mti
          ++ (codes "\nPrimaryBitMap : "
              ++ (to_hex m.primary ++ (above ++ print_fields m.fields (field_cnt extended) 0)))))
