-- ===== src/Iso/WellFormed.antt =====
-- The messages that the parser makes and that the printer can write: the bitmaps say exactly which
-- fields there are, and every field fits its definition.
use longclaw.Base.{
  ℕ, ◌+◌, ◌^◌, ◌≤◌, ◌<◌, ◌≡◌, Bool, true, false, Option, none, some, Bytes, length, pos,
}
use longclaw.Iso.BitSet.{BitSet, bit, IsWord}
use longclaw.Iso.Spec.{FieldDef, IsoSpec, Kind, fixed, variable, unknown, field_kind}
use longclaw.Iso.Message.{Message, Fields}

abbrev pub FitsKind : Kind → FieldDef → Bytes → Type 0
FitsKind fixed def v = def.min_length ≡ pos (length v)
FitsKind (variable length_digits) def v = length v < 10 ^ length_digits
FitsKind unknown def v = ⊥

abbrev pub FitsDef : Option FieldDef → Bytes → Type 0
FitsDef none v = ⊥
FitsDef (some def) v = FitsKind (field_kind def.field_type) def v

-- A flag and the field that it stands for.
abbrev pub Agrees : IsoSpec → ℕ → Bool → Option Bytes → Type 0
Agrees spec j true (some v) = FitsDef (spec.field_def_map (pos (j + 1))) v
Agrees spec j true none = ⊥
Agrees spec j false (some v) = ⊥
Agrees spec j false none = Unit

-- The flags from `lo` on, as many as `rounds`, agree with the fields from `base + lo` on.
abbrev pub AgreesOn : IsoSpec → BitSet → Fields → ℕ → ℕ → ℕ → Type 0
AgreesOn spec bits fields base lo rounds =
    (j : ℕ) → lo ≤ j → j < lo + rounds → Agrees spec (base + j) (bit bits j) (fields (base + j))

abbrev pub AgreesAbove : IsoSpec → Bool → Option BitSet → Fields → Type 0
AgreesAbove spec true (some bits) fields =
    IsWord bits × AgreesOn spec bits fields 64 0 64 × ((j : ℕ) → 128 ≤ j → fields j ≡ none)
AgreesAbove spec true none fields = ⊥
AgreesAbove spec false (some bits) fields = ⊥
AgreesAbove spec false none fields = (j : ℕ) → 64 ≤ j → fields j ≡ none

pub record IsWellFormed (m : Message) : Type 0 where
  pub has_mti : 4 ≤ length m.message
  pub word : IsWord m.primary
  pub no_field_zero : m.fields 0 ≡ none
  pub low : AgreesOn m.iso_spec m.primary m.fields 0 1 63
  pub high : AgreesAbove m.iso_spec (bit m.primary 0) m.secondary m.fields
